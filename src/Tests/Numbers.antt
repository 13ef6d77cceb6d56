-- ===== src/Tests/Numbers.antt =====
-- Pages and statuses.
use lxd_management_api.Base.{ℕ, ◌≡◌, arith, List, [], ◌∷◌}
use lxd_management_api.Pagination.Laws.{pages_from, pages_cover}

abbrev letters : List ℕ
letters = 7 ∷ (8 ∷ (9 ∷ []))

pages_cover_example : pages_from letters 2 0 2 ≡ letters
pages_cover_example = pages_cover letters 2 2 (omega arith)
