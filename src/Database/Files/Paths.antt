-- ===== src/Database/Files/Paths.antt =====
-- Which directory the parts of a URL lead to.
use Prim.Native.Char.{Char, code}
use Prim.Native.String.{[], ◌∷◌}
use text.Mathlib.TextLemmas.{nil-append, cons-append, append-nil, append_assoc}
use text.Mathlib.TextPositions.{starts_with-append}
use mathlib.Core.Bool.{and_assoc, or_assoc}
use lxd_management_api.Base.{
  ℕ, num_eq, String, ◌<>◌, ◌≡◌, refl, sym, ap, ◌∙◌, Bool, true, false, ◌&&◌, ◌||◌, Bool-cases, inl,
  inr, ◌⊎◌, some, starts_with, arith,
}
use lxd_management_api.Base.Text.{nonempty, rstrip, cons_unless, all_chars, is_slash, contains}
use lxd_management_api.Database.Files.{
  triple, last_split_from, last_split, through_slash, dirname, sqlite_dir,
}

slashes : (p : String) → "///" <> p ≡ ("/" ∷ ("/" ∷ ("/" ∷ p)))
slashes p =
    cons-append "/" "//" p
    ∙ ap (λ t. "/" ∷ t)
        (cons-append "/" "/" p
          ∙ ap (λ t. "/" ∷ t) (cons-append "/" [] p ∙ ap (λ t. "/" ∷ t) (nil-append p)))

triple-cons : (c : Char) (s : String) → is_slash (code c) ≡ false → triple (c ∷ s) ≡ false
unfolding triple
triple-cons c [] h = refl
triple-cons c (a ∷ []) h = refl
triple-cons c (a ∷ (b ∷ s)) h = rw h

both_but : {a b : Bool} → a ≡ true → (a && b) ≡ false → b ≡ false
both_but {a} {b} h k = ground arith

cons_unless_kept :
    (c : Char) (s : String) → is_slash (code c) ≡ false → cons_unless is_slash c s ≡ (c ∷ s)
unfolding cons_unless
cons_unless_kept c [] h = rw h
cons_unless_kept c (d ∷ s) h = refl

-- Whether the separator occurs.
has_triple : String → Bool
unfolding triple
has_triple [] = false
has_triple (c ∷ s) = triple (c ∷ s) || has_triple s

neither : (a b : Bool) → (a || b) ≡ false → (a ≡ false) × (b ≡ false)
neither a b h = ground arith

last_split_miss :
    (cur : String) (c : Char) (s : String)
    → triple (c ∷ s) ≡ false
    → last_split_from 0 cur (c ∷ s) ≡ last_split_from 0 (cur <> (c ∷ [])) s
unfolding last_split_from
last_split_miss cur c s h = rw (h, last_split_from)

last_split_kept : (cur s : String) → has_triple s ≡ false → last_split_from 0 cur s ≡ cur <> s
unfolding last_split_from has_triple
last_split_kept cur [] h = sym (append-nil cur)
last_split_kept cur (c ∷ s) h =
    let (here, later) = neither (triple (c ∷ s)) (has_triple s) h in
    last_split_miss cur c s here
    ∙ (last_split_kept (cur <> (c ∷ [])) s later
        ∙ append_assoc cur (c ∷ []) s
        ∙ ap (λ t. cur <> t) (cons-append c [] s ∙ ap (λ t. c ∷ t) (nil-append s)))

-- The part after the separator does not depend on what was read before it.
last_split_at :
    (cur p : String) → last_split_from 0 cur ("/" ∷ ("/" ∷ ("/" ∷ p))) ≡ last_split_from 0 [] p
unfolding last_split_from
last_split_at cur p = refl

last_split_after :
    (cur scheme p : String)
    → contains b'/' scheme ≡ false
    → last_split_from 0 cur (scheme <> ("///" <> p)) ≡ last_split_from 0 [] p
unfolding last_split_from contains
last_split_after cur [] p h = rw (nil-append ("///" <> p), slashes p) (last_split_at cur p)
last_split_after cur (c ∷ scheme) p h =
    let (here, later) = neither (is_slash (code c)) (contains b'/' scheme) h in
    rw (cons-append c scheme ("///" <> p)) (
      last_split_miss cur c _ (triple-cons c (scheme <> ("///" <> p)) here)
      ∙ last_split_after (cur <> (c ∷ [])) scheme p later)

nonempty-append : (s : String) (c : Char) (t : String) → nonempty (s <> (c ∷ t)) ≡ true
nonempty-append [] c t = rw (nil-append (c ∷ t))
nonempty-append (d ∷ s) c t = rw (cons-append d s (c ∷ t))

nonempty_scheme : (driver : String) → nonempty ("sqlite" <> driver) ≡ true
nonempty_scheme driver = rw (cons-append "s" "qlite" driver)

contains-append : (c : ℕ) (s t : String) → contains c (s <> t) ≡ (contains c s || contains c t)
unfolding contains
contains-append c [] t = rw (nil-append t)
contains-append c (d ∷ s) t =
    rw (cons-append d s t, contains-append c s t) (sym (or_assoc (num_eq (code d) c) _ _))

all_chars-append :
    (q : ℕ → Bool) (s t : String) → all_chars q (s <> t) ≡ (all_chars q s && all_chars q t)
unfolding all_chars
all_chars-append q [] t = rw (nil-append t)
all_chars-append q (d ∷ s) t =
    rw (cons-append d s t, all_chars-append q s t) (sym (and_assoc (q (code d)) _ _))

through_slash_none : (f : String) → contains b'/' f ≡ false → through_slash f ≡ []
unfolding through_slash contains
through_slash_none [] h = refl
through_slash_none (c ∷ f) h =
    let (here, later) = neither (is_slash (code c)) (contains b'/' f) h in
    rw (through_slash_none f later, here)

through_slash_last :
    (d f : String) → contains b'/' f ≡ false → through_slash (d <> ("/" ∷ f)) ≡ d <> ("/" ∷ [])
unfolding through_slash
through_slash_last [] f h = rw (nil-append ("/" ∷ f), through_slash_none f h) (sym (nil-append "/"))
through_slash_last (c ∷ d) f h =
    rw (cons-append c d ("/" ∷ f), through_slash_last d f h, nonempty-append d "/" [])
      (sym (cons-append c d "/"))

rstrip-slash : (d : String) → rstrip is_slash (d <> ("/" ∷ [])) ≡ rstrip is_slash d
unfolding rstrip
rstrip-slash [] = refl
rstrip-slash (c ∷ d) = rw (cons-append c d "/", rstrip-slash d)

-- The parent of a path: what stands before the slashes in front of its last part.
dirname_lem :
    (d f : String)
    → contains b'/' f ≡ false
    → all_chars is_slash d ≡ false
    → dirname (d <> ("/" ∷ f)) ≡ rstrip is_slash d
unfolding dirname
dirname_lem d f plain h =
    rw (through_slash_last d f plain, all_chars-append is_slash d "/", h) (rstrip-slash d)

kept-nonempty :
    (c : Char) (r : String)
    → (is_slash (code c) ≡ false) ⊎ (nonempty r ≡ true)
    → nonempty (cons_unless is_slash c r) ≡ true
unfolding cons_unless
kept-nonempty c [] (inl h) = rw h
kept-nonempty c [] (inr h) = cc
kept-nonempty c (d ∷ r) h = refl

rstrip-nonempty : (d : String) → all_chars is_slash d ≡ false → nonempty (rstrip is_slash d) ≡ true
unfolding rstrip all_chars
rstrip-nonempty [] h = cc
rstrip-nonempty (c ∷ d) h = kept-nonempty c _ (elim (Bool-cases (is_slash (code c))) [
  | inl slash ↦ inr (rstrip-nonempty d (both_but slash h))
  | inr other ↦ inl other
])

rstrip_none : (s : String) → contains b'/' s ≡ false → rstrip is_slash s ≡ s
unfolding rstrip contains
rstrip_none [] h = refl
rstrip_none (c ∷ s) h =
    let (here, later) = neither (is_slash (code c)) (contains b'/' s) h in
    rw (rstrip_none s later) (cons_unless_kept c s here)

sqlite_scheme : (driver rest : String) → starts_with (("sqlite" <> driver) <> rest) "sqlite" ≡ true
sqlite_scheme driver rest = rw (append_assoc "sqlite" driver rest) (starts_with-append "sqlite" _)

scheme_plain :
    (driver : String) → contains b'/' driver ≡ false → contains b'/' ("sqlite" <> driver) ≡ false
unfolding contains
scheme_plain driver h = contains-append b'/' "sqlite" driver ∙ h

-- The directory of a URL, once its path is known.
sqlite_dir_at :
    (driver rest path directory : String)
    → last_split (("sqlite" <> driver) <> rest) ≡ path
    → dirname path ≡ directory
    → nonempty directory ≡ true
    → sqlite_dir (("sqlite" <> driver) <> rest) ≡ some directory
unfolding sqlite_dir
sqlite_dir_at driver rest path directory h k l = rw (h, k, sqlite_scheme driver rest, l)

-- For a URL `sqlite<driver>:///<directory>/<file>`, where neither the driver nor the file has a slash,
-- the directory is not only slashes and the path has no three slashes in a row: the directory that is
-- made is that of the file, without the slashes at its end.
sqlite_dir_file :
    (driver directory file : String)
    → contains b'/' driver ≡ false
    → contains b'/' file ≡ false
    → all_chars is_slash directory ≡ false
    → has_triple (directory <> ("/" ∷ file)) ≡ false
    → sqlite_dir (("sqlite" <> driver) <> ("///" <> (directory <> ("/" ∷ file))))
      ≡ some (rstrip is_slash directory)
unfolding last_split
sqlite_dir_file driver directory file plain last some_name once =
    sqlite_dir_at driver _ (directory <> ("/" ∷ file)) _
      (last_split_after [] ("sqlite" <> driver) (directory <> ("/" ∷ file))
          (scheme_plain driver plain)
        ∙ last_split_kept [] _ once
        ∙ nil-append _)
      (dirname_lem directory file last some_name) (rstrip-nonempty directory some_name)

has_triple_scheme :
    (scheme : String) → contains b'/' scheme ≡ false → has_triple (scheme <> "//") ≡ false
unfolding has_triple contains
has_triple_scheme [] h = refl
has_triple_scheme (c ∷ scheme) h =
    let (here, later) = neither (is_slash (code c)) (contains b'/' scheme) h in
    rw (cons-append c scheme "//", triple-cons c (scheme <> "//") here)
      (has_triple_scheme scheme later)

filled_scheme : (driver : String) → all_chars is_slash (("sqlite" <> driver) <> "/") ≡ false
unfolding all_chars
filled_scheme driver =
    all_chars-append is_slash ("sqlite" <> driver) "/"
    ∙ ap (λ b. b && true) (all_chars-append is_slash "sqlite" driver)

no_slash : contains b'/' [] ≡ false
unfolding contains
no_slash = refl

scheme_parent :
    (driver : String)
    → contains b'/' driver ≡ false
    → dirname (("sqlite" <> driver) <> "//") ≡ "sqlite" <> driver
scheme_parent driver plain =
    ap dirname (sym (append_assoc ("sqlite" <> driver) "/" "/"))
    ∙ dirname_lem (("sqlite" <> driver) <> "/") [] no_slash (filled_scheme driver)
    ∙ rstrip-slash ("sqlite" <> driver)
    ∙ rstrip_none ("sqlite" <> driver) (scheme_plain driver plain)

-- For the URL `sqlite<driver>://` of a database in memory, where the driver has no slash, a directory is
-- made that has the name `sqlite<driver>` of the scheme.
sqlite_dir_memory :
    (driver : String)
    → contains b'/' driver ≡ false
    → sqlite_dir (("sqlite" <> driver) <> "//") ≡ some ("sqlite" <> driver)
unfolding last_split
sqlite_dir_memory driver plain =
    sqlite_dir_at driver "//" (("sqlite" <> driver) <> "//") ("sqlite" <> driver)
      (last_split_kept [] _ (has_triple_scheme ("sqlite" <> driver) (scheme_plain driver plain))
        ∙ nil-append _)
      (scheme_parent driver plain) (nonempty_scheme driver)
