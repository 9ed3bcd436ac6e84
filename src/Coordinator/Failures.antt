-- ===== src/Coordinator/Failures.antt =====
-- The list of failed updates: each key counts its attempts, and a success clears it.
use hass_ontology_fix.Common.{
  ℕ, ◌+◌, ◌≡◌, ◌↔◌, refl, String, Bool, true, false, ◌&&◌, List, [], ◌∷◌, ◌++◌, any, str_eq, eq_iff,
  if◌then◌else◌, arith, Bool-cases, inl, inr,
}
use hass_ontology_fix.Coordinator.State.{
  UpdateKind, entity, kind_eq, FailedUpdate, is_update, count_attempt, track_failed, clear_failed,
}

-- How often the update of this key has failed since it last succeeded.
abbrev pub attempts : UpdateKind → String → List FailedUpdate → ℕ
attempts kind id [] = 0
attempts kind id (item ∷ items) =
    if is_update kind id item then item.attempts else attempts kind id items

pub same_key : UpdateKind → String → UpdateKind → String → Bool
same_key kind id kind' id' = kind_eq kind kind' && str_eq id id'

kind_eq_iff : (a b : UpdateKind) → (kind_eq a b ≡ true) ↔ (a ≡ b)
kind_eq_iff a b = ground arith

same_key_sound :
    (k k' : UpdateKind) (id id' : String) → same_key k id k' id' ≡ true → (k ≡ k') × (id ≡ id')
unfolding same_key
same_key_sound k k' id id' h = ground (arith, kind_eq_iff k k', eq_iff id id')

pub same_key_self : (k : UpdateKind) (id : String) → same_key k id k id ≡ true
unfolding same_key
same_key_self k id = ground (arith, kind_eq_iff k k, eq_iff id id)

pub same_key-entity : (id j : String) → same_key entity id entity j ≡ str_eq j id
unfolding same_key
same_key-entity id j = ground (arith, eq_iff id j, eq_iff j id)

pub same_key-ne :
    (k k' : UpdateKind) (id j : String) → kind_eq k k' ≡ false → same_key k id k' j ≡ false
unfolding same_key
same_key-ne k k' id j h = rw h

-- Two keys that an item fits are one.
is_update-same :
    (k k' : UpdateKind) (id id' : String) (item : FailedUpdate)
    → is_update k id item ≡ true
    → is_update k' id' item ≡ same_key k id k' id'
unfolding is_update same_key
is_update-same k k' id id' item h =
    ground (arith, eq_iff item.id id, eq_iff item.id id', eq_iff id id')

is_update-counted :
    (k : UpdateKind) (id m : String) (n : ℕ) (item : FailedUpdate)
    → is_update k id (record item { attempts = n; error = m }) ≡ is_update k id item
unfolding is_update
is_update-counted k id m n item = refl

is_update-new :
    (k k' : UpdateKind) (id id' m : String)
    → is_update k id (record { kind = k'; id = id'; attempts = 1; error = m })
      ≡ same_key k id k' id'
unfolding is_update same_key
is_update-new k k' id id' m =
    ground (arith, kind_eq_iff k k', kind_eq_iff k' k, eq_iff id id', eq_iff id' id)

attempts-absent :
    (k : UpdateKind) (id : String) (items : List FailedUpdate)
    → any (is_update k id) items ≡ false
    → attempts k id items ≡ 0
attempts-absent k id [] h = refl
attempts-absent k id (item ∷ items) h = ground (arith, attempts-absent k id items)

attempts-count_attempt :
    (k k' : UpdateKind) (id id' m : String) (items : List FailedUpdate)
    → any (is_update k' id') items ≡ true
    → attempts k id (count_attempt k' id' m items)
      ≡ (if same_key k id k' id' then 1 else 0) + attempts k id items
unfolding count_attempt
attempts-count_attempt k k' id id' m [] h = cc
attempts-count_attempt k k' id id' m (item ∷ items) h = ground (
  arith,
  attempts-count_attempt k k' id id' m items,
  is_update-same k k' id id' item,
  is_update-counted k id m (item.attempts + 1) item,
  is_update-same k' k' id' id' item,
  same_key_sound k k' id id',
  is_update-same k' k id' id item,
  same_key_sound k' k id' id,
  same_key_self k id,
)

attempts-append :
    (k : UpdateKind) (id : String) (x : FailedUpdate) (items : List FailedUpdate)
    → attempts k id (items ++ x ∷ []) ≡ (
        if any (is_update k id) items
        then attempts k id items
        else if is_update k id x
        then x.attempts
        else 0)
attempts-append k id x [] = refl
attempts-append k id x (item ∷ items) = ground (arith, attempts-append k id x items)

-- A failure counts one more attempt of its own key, from none if it was not there, and of no other.
pub attempts-track_failed :
    (k k' : UpdateKind) (id id' m : String) (items : List FailedUpdate)
    → attempts k id (track_failed k' id' m items)
      ≡ (if same_key k id k' id' then 1 else 0) + attempts k id items
unfolding track_failed
attempts-track_failed k k' id id' m items = elim (Bool-cases (any (is_update k' id') items)) [
  | inl old ↦ rw old (attempts-count_attempt k k' id id' m items old)
  | inr new ↦
      let x : FailedUpdate = record { kind = k'; id = id'; attempts = 1; error = m } in
      rw new (
        ground (
          arith,
          attempts-append k id x items,
          is_update-new k k' id id' m,
          attempts-absent k id items,
          same_key_sound k k' id id',
        ))
]

-- A success forgets the attempts of its own key, and of no other.
pub attempts-clear_failed :
    (k k' : UpdateKind) (id id' : String) (items : List FailedUpdate)
    → attempts k id (clear_failed k' id' items)
      ≡ (if same_key k id k' id' then 0 else attempts k id items)
unfolding clear_failed
attempts-clear_failed k k' id id' [] = ground arith
attempts-clear_failed k k' id id' (item ∷ items) =
    ground (arith, attempts-clear_failed k k' id id' items, is_update-same k k' id id' item)
