-- ===== src/Slab.antt =====
-- runtime/src/utils/slab.rs: pages of slots with free lists, and a slab of pages that double in size.
-- `none` is undefined behaviour or a panic, as in `Page`.
pub mod Page
pub mod Keys
pub mod Values
pub mod Store
pub mod Adding
pub mod Tests
use fairy.Prelude.{
  ℕ, zero, suc, ◌+◌, ◌-◌, ◌*◌, ◌/◌, ◌%◌, ◌^◌, min, Bool, true, false, not, ◌&&◌, Option, none, some,
  leb, ltb, ◌==◌, if◌then◌else◌, ◌>>=◌, ◌>>◌, assert, insert, erase, nat_eq, Eq,
}

pub record Slab (T : Type 0) : Type 0 where
  pub pages : ℕ → Option (Page.Page T)
  pub w_page_id : ℕ
  pub generation : ℕ

abbrev pub num_pages : ℕ
num_pages = 26

abbrev pub page_initial_size : ℕ
page_initial_size = 64

abbrev pub compact_interval : ℕ
compact_interval = 2048

abbrev pub usize_max : ℕ
usize_max = 2 ^ 64 - 1

-- The number of binary digits, on fuel: 64 is enough for a `usize`.
unfoldable pub bit_length : ℕ → ℕ → ℕ
bit_length zero n = 0
bit_length (suc fuel) n = let rest = bit_length fuel (n / 2) in if n == 0 then 0 else rest + 1

abbrev pub leading_zeros : ℕ → ℕ
leading_zeros n = 64 - bit_length 64 n

-- `PAGE_INDEX_SHIFT` is 7.
unfoldable pub get_page_id : ℕ → ℕ
get_page_id key =
    let slot_shifted = min (key + page_initial_size) usize_max / 2 ^ 7 in
    min (64 - leading_zeros slot_shifted) (num_pages - 1)

module _ {T : Type 0} where
  unfoldable pub init : Slab T
  init = record { pages = λ _. none; w_page_id = 0; generation = 0 }

  abbrev pub used_of : Option (Page.Page T) → ℕ
  used_of none = 0
  used_of (some page) = page.used

  -- The sum over the first `n` pages.
  unfoldable pub len_of : ℕ → (ℕ → Option (Page.Page T)) → ℕ
  len_of zero pages = 0
  len_of (suc n) pages = len_of n pages + used_of (pages n)

  unfoldable pub len : Slab T → ℕ
  unfolding len_of
  len s = len_of num_pages s.pages

  -- Page `i`, allocated if it is not there.
  abbrev pub page_or_new : ℕ → Option (Page.Page T) → Page.Page T
  page_or_new i (some page) = page
  page_or_new i none =
      Page.new (page_initial_size * 2 ^ i) (page_initial_size * 2 ^ i - page_initial_size)

  -- The loop of `insert` with `rounds` pages to go, from page `i` on.
  unfoldable pub insert_from : ℕ → ℕ → Slab T → T → Option (Slab T × ℕ)
  insert_from zero i s val = none
  insert_from (suc rounds) i s val = elim (Page.put (page_or_new i (s.pages i)) val) [
    | none ↦ none
    | some (page, none) ↦
        insert_from rounds (i + 1) (record s { pages = insert s.pages i page }) val
    | some (page, some slot) ↦
        some (record s { pages = insert s.pages i page; w_page_id = i }, slot + page.prev_len)
  ]

  unfoldable pub add : Slab T → T → Option (Slab T × ℕ)
  unfolding insert_from
  add s val = insert_from (num_pages - s.w_page_id) s.w_page_id s val

  unfoldable pub get : Slab T → ℕ → Option (Option T)
  get s key = elim (s.pages (get_page_id key)) [
    | none ↦ some none
    | some page ↦ assert (leb page.prev_len key) >> Page.get page (key - page.prev_len)
  ]

  -- The allocated page with the highest index below `n`.
  unfoldable pub last_page : ℕ → (ℕ → Option (Page.Page T)) → Option (ℕ × Page.Page T)
  last_page zero pages = none
  last_page (suc n) pages = elim (pages n) [ some page ↦ some (n, page) | none ↦ last_page n pages ]

  -- Drop the last page, if it is empty and not the first.
  unfoldable pub compact : (ℕ → Option (Page.Page T)) → ℕ → Option (Page.Page T)
  unfolding last_page Page.is_empty
  compact pages = elim (last_page num_pages pages) [
    | none ↦ pages
    | some (id, page) ↦ if Page.is_empty page && ltb 0 id then erase pages id else pages
  ]

  unfoldable pub mark_remove : Slab T → Slab T
  unfolding compact
  mark_remove s =
      let generation = (s.generation + 1) % 2 ^ 32 in
      if generation % compact_interval == 0
      then record s { generation = generation; w_page_id = 0; pages = compact s.pages }
      else record s { generation = generation }

  unfoldable pub remove : Slab T → ℕ → Option (Slab T × Option T)
  unfolding mark_remove
  remove s key = elim (s.pages (get_page_id key)) [
    | none ↦ some (s, none)
    | some page ↦
        assert (leb page.prev_len key)
        >> (Page.remove page (key - page.prev_len) >>= λ r.
            some (mark_remove (record s { pages = insert s.pages (get_page_id key) r.0 }), r.1))
  ]
