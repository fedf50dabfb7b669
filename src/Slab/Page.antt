-- ===== src/Slab/Page.antt =====
-- runtime/src/utils/slab.rs: `Entry` and `Page`. `none` is undefined behaviour (a read of a slot that
-- is not initialized, an access out of bounds, `unreachable_unchecked`) or a failed debug assertion.
pub mod Free
pub mod Map
use fairy.Prelude.{
  ℕ, ◌+◌, ◌-◌, Bool, true, false, Option, none, some, leb, ltb, ◌==◌, if◌then◌else◌, ◌>>=◌, ◌>>◌,
  assert, insert, nat_eq, Eq,
}

pub data Entry {ℓ} (T : Type ℓ) : Type ℓ where
  vacant : ℕ → Entry T
  occupied : T → Entry T

-- `size` is `slots.len()`; a slot that is `none` is not initialized.
pub record Page {ℓ} (T : Type ℓ) : Type ℓ where
  pub size : ℕ
  pub slots : ℕ → Option (Entry T)
  pub used : ℕ
  pub initialized : ℕ
  pub next : ℕ
  pub prev_len : ℕ

module _ {ℓ} {T : Type ℓ} where
  unfoldable pub new : ℕ → ℕ → Page T
  new size prev_len = record {
    size = size;
    slots = λ _. none;
    used = 0;
    initialized = 0;
    next = 0;
    prev_len = prev_len;
  }

  unfoldable pub is_empty : Page T → Bool
  is_empty p = p.used == 0

  unfoldable pub is_full : Page T → Bool
  is_full p = p.used == p.size

  abbrev pub as_ref : Entry T → Option T
  as_ref (vacant _) = none
  as_ref (occupied inner) = some inner

  -- The next slot of a vacant entry.
  abbrev pub next_vacant : Entry T → Option ℕ
  next_vacant (vacant n) = some n
  next_vacant (occupied _) = none

  -- The page, and the slot, if there is room.
  unfoldable pub alloc : Page T → Option (Page T × Option ℕ)
  unfolding is_full
  alloc p =
      if is_full p
      then assert (p.next == p.size) >> some (p, none)
      else if leb p.initialized p.next
      then assert (p.next == p.initialized)
        >> some (
          record p { initialized = p.initialized + 1; next = p.next + 1; used = p.used + 1 },
          some p.next,
        )
      else (do
        entry ← p.slots p.next
        n ← next_vacant entry
        some (record p { next = n; used = p.used + 1 }, some p.next))

  unfoldable pub set : Page T → ℕ → T → Option (Page T)
  set p slot val =
      assert (ltb slot p.size) >> some (record p { slots = insert p.slots slot (occupied val) })

  -- `get`, `get_mut` and, with the entry, `get_entry_mut`.
  unfoldable pub get_entry : Page T → ℕ → Option (Option (Entry T))
  get_entry p slot =
      if leb p.initialized slot then some none else (p.slots slot >>= λ entry. some (some entry))

  unfoldable pub get : Page T → ℕ → Option (Option T)
  get p slot =
      if leb p.initialized slot then some none else (p.slots slot >>= λ entry. some (as_ref entry))

  -- The page, and the value that was there.
  unfoldable pub remove : Page T → ℕ → Option (Page T × Option T)
  remove p slot = if leb p.initialized slot then some (p, none) else (do
    entry ← p.slots slot
    some (elim entry [
      | vacant _ ↦ (p, none)
      | occupied val ↦ (
        record p { slots = insert p.slots slot (vacant p.next); next = slot; used = p.used - 1 },
        some val,
      )
    ]))

  -- What `Slab::insert` does with a page: the page, and the slot of the value, if there is room.
  unfoldable pub put : Page T → T → Option (Page T × Option ℕ)
  unfolding alloc set
  put p val = alloc p >>= λ r. elim r.1 [
    | none ↦ some (r.0, none)
    | some slot ↦ set r.0 slot val >>= λ p'. some (p', some slot)
  ]
