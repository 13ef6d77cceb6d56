-- ===== src/Pagination/Laws.antt =====
-- Pages are runs of the list, and together they are the list.
use Prim.Native.Nat.add
use native.Mathlib.Nat.{zero-add}
use lxd_management_api.Base.{
  ℕ, zero, suc, ◌+◌, ◌-◌, ◌*◌, ◌≤◌, min, ◌≡◌, refl, sym, ◌∙◌, ap, ap₂, ◌≡⟨◌⟩◌, ◌∎, List, [], ◌∷◌,
  ◌++◌, length, take, drop, length-take, length-drop, Option, some, arith,
}
use lxd_management_api.Pagination.{PageParams, slice, paginate, page_params}

-- The requests of a client that reads page after page of `limit` items.
abbrev pub nth_page : ℕ → ℕ → PageParams
nth_page limit i = record { limit = limit; offset = i * limit }

-- The items of the pages `i`, `i + 1`, …, `i + n - 1`.
unfoldable pub pages_from {ℓ} : {A : Type ℓ} → List A → ℕ → ℕ → ℕ → List A
unfolding paginate
pages_from items limit i zero = []
pages_from items limit i (suc n) =
    (paginate items (nth_page limit i)).items ++ pages_from items limit (i + 1) n

module _ {ℓ} {A : Type ℓ} where
  drop-nil : (n : ℕ) → drop {A = A} n [] ≡ []
  drop-nil zero = refl
  drop-nil (suc n) = refl

  take-nil : (n : ℕ) → take {A = A} n [] ≡ []
  take-nil zero = refl
  take-nil (suc n) = refl

  drop-drop : (m n : ℕ) (xs : List A) → drop m (drop n xs) ≡ drop (n + m) xs
  drop-drop m zero xs = rw zero-add
  drop-drop m (suc n) [] = drop-nil m ∙ sym (drop-nil (suc n + m))
  drop-drop m (suc n) (x ∷ xs) = rw (add.suc n m) (drop-drop m n xs)

  take-append-take : (m n : ℕ) (xs : List A) → take m xs ++ take n (drop m xs) ≡ take (m + n) xs
  take-append-take zero n xs = rw zero-add
  take-append-take (suc m) n [] = take-nil n ∙ sym (take-nil (suc m + n))
  take-append-take (suc m) n (x ∷ xs) = rw (add.suc m n) (ap (λ l. x ∷ l) (take-append-take m n xs))

  take_all : (n : ℕ) (xs : List A) → length xs ≤ n → take n xs ≡ xs
  take_all n [] h = take-nil n
  take_all zero (x ∷ xs) h = absurd (omega arith)
  take_all (suc n) (x ∷ xs) h = ap (λ l. x ∷ l) (take_all n xs (omega arith))

  -- A page is the run of at most `limit` items that follows the first `offset`.
  pub paginate_run :
      (items : List A) (params : PageParams)
      → (paginate items params).items ≡ take params.limit (drop params.offset items)
  unfolding paginate slice
  paginate_run items params = ap (λ n. take n (drop params.offset items)) (omega arith)

  pages_from-eq-take :
      (items : List A) (limit i n : ℕ)
      → pages_from items limit i n ≡ take (n * limit) (drop (i * limit) items)
  unfolding pages_from
  pages_from-eq-take items limit i zero =
      let nothing : 0 ≡ zero * limit = omega arith in
      ap (λ m. take m (drop (i * limit) items)) nothing
  pages_from-eq-take items limit i (suc n) =
      let next : (i + 1) * limit ≡ i * limit + limit = omega arith in
      let total : limit + n * limit ≡ suc n * limit = omega arith in
      (paginate items (nth_page limit i)).items ++ pages_from items limit (i + 1) n
      ≡⟨ ap₂ ◌++◌ (paginate_run items (nth_page limit i))
          (pages_from-eq-take items limit (i + 1) n) ⟩
        take limit (drop (i * limit) items) ++ take (n * limit) (drop ((i + 1) * limit) items)
      ≡⟨ ap (λ l. take limit (drop (i * limit) items) ++ take (n * limit) l)
          (ap (λ k. drop k items) next ∙ sym (drop-drop limit (i * limit) items)) ⟩
        take limit (drop (i * limit) items)
        ++ take (n * limit) (drop limit (drop (i * limit) items))
      ≡⟨ take-append-take limit (n * limit) (drop (i * limit) items) ⟩
        take (limit + n * limit) (drop (i * limit) items)
      ≡⟨ ap (λ k. take k (drop (i * limit) items)) total ⟩
        take (suc n * limit) (drop (i * limit) items) ∎

  -- Reading `n` pages of `limit` items each, the first at offset 0, gives every item of the list
  -- once and in order, if `n * limit` is at least the length of the list.
  pub pages_cover :
      (items : List A) (limit n : ℕ) → length items ≤ n * limit → pages_from items limit 0 n ≡ items
  pages_cover items limit n h =
      let start : 0 * limit ≡ 0 = omega arith in
      pages_from-eq-take items limit 0 n
      ∙ ap (λ k. take (n * limit) (drop k items)) start
      ∙ take_all (n * limit) items h

  -- A page has as many items as are left after the offset, but at most `limit`; it repeats the
  -- limit and the offset, and its total is the length of the whole list.
  pub paginate_sizes :
      (items : List A) (params : PageParams)
      → (length (paginate items params).items ≡ min params.limit (length items - params.offset))
        × ((paginate items params).limit ≡ params.limit)
        × ((paginate items params).offset ≡ params.offset)
        × ((paginate items params).total ≡ length items)
  unfolding paginate
  paginate_sizes items params = (
    ap length (paginate_run items params)
        ∙ length-take params.limit (drop params.offset items)
        ∙ ap (min params.limit) (length-drop params.offset items),
    refl,
    refl,
    refl,
  )

-- Every accepted page request asks for at least 1 and at most 1000 items.
pub page_params_bounds :
    (limit offset : Option ℕ) (p : PageParams)
    → page_params limit offset ≡ some p
    → (1 ≤ p.limit) × (p.limit ≤ 1000)
unfolding page_params
page_params_bounds limit offset p h = ground arith
