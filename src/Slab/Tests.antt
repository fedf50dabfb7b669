-- ===== src/Slab/Tests.antt =====
-- runtime/src/utils/slab.rs: runs of the slab, and instances of its laws.
use fairy.Prelude.{ℕ, ◌≡◌, refl, none, some, arith, Post, nat_eq}
use fairy.Slab.Page.{Page}
use fairy.Slab.Page
use fairy.Slab.{Slab, init, add, get, remove, get_page_id, bit_length}
use fairy.Slab.Values.{value}
use fairy.Slab.Store.{init-Inv, get-value, remove-Erased, Erased}
use fairy.Slab.Adding.{Added, add-Added}

-- `insert_get_remove_one`
one : Post (add {T = ℕ} init 10) (λ a.
    (a.1 ≡ 0)
    × (get a.0 a.1 ≡ some (some 10))
    × Post (remove a.0 a.1) (λ r. (r.1 ≡ some 10) × (get r.0 a.1 ≡ some none)))
unfolding add get remove get_page_id bit_length init Page.put Page.get Page.remove Page.new
one = (refl, refl, (refl, refl))

page_ids :
    (get_page_id 63 ≡ 0) × (get_page_id 64 ≡ 1) × (get_page_id 191 ≡ 1) × (get_page_id 192 ≡ 2)
unfolding get_page_id bit_length
page_ids = (refl, refl, refl, refl)

add-Added_example :
    (s' : Slab ℕ) × (key : ℕ) × (add {T = ℕ} init 10 ≡ some (s', key)) × Added init 10 key s'
unfolding init
add-Added_example = add-Added init 10 0 init-Inv (omega arith) (omega arith) (λ f. f)

-- The slab that holds 10, and its key.
stored : (s' : Slab ℕ) × (key : ℕ) × (add {T = ℕ} init 10 ≡ some (s', key)) × Added init 10 key s'
stored = add-Added_example

get-value_example : get stored.0 7 ≡ some (value stored.0.pages 7)
get-value_example = get-value stored.0 7 stored.3.inv (omega arith)

remove-Erased_example :
    (s' : Slab ℕ) × (remove stored.0 0 ≡ some (s', value stored.0.pages 0)) × Erased stored.0 0 s'
remove-Erased_example = remove-Erased stored.0 0 stored.3.inv (omega arith)
