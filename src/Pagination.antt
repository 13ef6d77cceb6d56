-- ===== src/Pagination.antt =====
-- utils/pagination.py.
pub mod Laws
use lxd_management_api.Base.{
  ℕ, ◌+◌, ◌-◌, leb, ◌&&◌, List, length, take, drop, Option, none, some, if◌then◌else◌,
}
use lxd_management_api.Json.{Value, num, arr, array, Dict, empty, entry}

pub record PageParams : Type 0 where
  pub limit : ℕ
  pub offset : ℕ

-- `items[start:end]` of a list.
unfoldable pub slice {ℓ} : {A : Type ℓ} → List A → ℕ → ℕ → List A
slice items start end = take (end - start) (drop start items)

-- The page that `paginate` returns, before it is a dictionary.
pub record Page {ℓ} (A : Type ℓ) : Type ℓ where
  pub items : List A
  pub limit : ℕ
  pub offset : ℕ
  pub total : ℕ

-- `paginate`.
unfoldable pub paginate {ℓ} : {A : Type ℓ} → List A → PageParams → Page A
unfolding slice
paginate items params =
    let start = params.offset in
    let end = start + params.limit in
    record {
      items = slice items start end;
      limit = params.limit;
      offset = params.offset;
      total = length items;
    }

-- The envelope as the dictionary that the routes return.
unfoldable pub dump_page : Page Value → Dict
dump_page page = entry "items" (arr (array page.items)) (
    entry "limit" (num page.limit)
      (entry "offset" (num page.offset) (entry "total" (num page.total) empty)))

-- `page_params`: the bounds that its `Query` declarations state, and the defaults; `none` is the
-- rejection of the request.
unfoldable pub page_params : Option ℕ → Option ℕ → Option PageParams
page_params limit offset =
    let l : ℕ = elim limit [ none ↦ 100 | some n ↦ n ] in
    let o : ℕ = elim offset [ none ↦ 0 | some n ↦ n ] in
    if leb 1 l && leb l 1000 then some (record { limit = l; offset = o }) else none
