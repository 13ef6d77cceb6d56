-- ===== src/Database/Files.antt =====
-- `_ensure_sqlite_dir` of db/session.py: which directory is made for a database in a file.
pub mod Paths
use Prim.Native.Char.{Char, code}
use Prim.Native.String
use Prim.Native.String.{[], ◌∷◌}
use text.Mathlib.TextLemmas.{nil-append, cons-append, append-nil, append_assoc}
use text.Mathlib.TextPositions.{starts_with-append}
use mathlib.Core.Bool.{and_assoc, or_assoc}
use lxd_management_api.Base.{
  ℕ, zero, suc, num_eq, String, ◌<>◌, ◌≡◌, refl, sym, ap, ◌∙◌, Bool, true, false, ◌&&◌, ◌||◌,
  Bool-cases, inl, inr, ◌⊎◌, Option, none, some, starts_with, arith, if◌then◌else◌,
}
use lxd_management_api.Base.Text.{nonempty, rstrip, cons_unless, all_chars, is_slash, contains}

-- Whether the text starts with three slashes.
triple : String → Bool
triple (a ∷ (b ∷ (c ∷ s))) = is_slash (code a) && (is_slash (code b) && is_slash (code c))
triple _ = false

-- The rest of `text.split("///")[-1]`, with slashes left to skip.
last_split_from : ℕ → String → String → String
unfolding triple
last_split_from skip cur [] = cur
last_split_from (suc skip) cur (c ∷ s) = last_split_from skip cur s
last_split_from zero cur (c ∷ s) =
    let hit = triple (c ∷ s) in
    last_split_from (if hit then 2 else 0) (if hit then [] else cur <> (c ∷ [])) s

-- `text.split("///")[-1]`: what follows the last separator.
unfoldable pub last_split : String → String
unfolding last_split_from
last_split s = last_split_from 0 [] s

-- A text up to its last slash, that slash included.
through_slash : String → String
through_slash [] = []
through_slash (c ∷ s) =
    let rest = through_slash s in
    if nonempty rest then c ∷ rest else if is_slash (code c) then c ∷ [] else []

-- `os.path.dirname`.
unfoldable pub dirname : String → String
unfolding through_slash rstrip all_chars
dirname path =
    let head = through_slash path in if all_chars is_slash head then head else rstrip is_slash head

-- The directory that `_ensure_sqlite_dir` makes, if any.
unfoldable pub sqlite_dir : String → Option String
unfolding last_split dirname
sqlite_dir url =
    let directory = dirname (last_split url) in
    if starts_with url "sqlite" && nonempty directory then some directory else none
