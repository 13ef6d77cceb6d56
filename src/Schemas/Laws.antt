-- ===== src/Schemas/Laws.antt =====
-- What the bodies hold, and what a name that is accepted looks like.
use Prim.Native.Char.{Char, code}
use Prim.Native.String
use Prim.Native.String.{[], ◌∷◌}
use lxd_management_api.Base.{
  ◌↔◌, ◌⊎◌, inl, inr, num_eq, ◌||◌, Bool-cases, ℕ, String, ◌≡◌, ◌≤◌, refl, ap, ◌∙◌, Bool, true,
  false, ◌&&◌, some, arith, leb,
}
use lxd_management_api.Base.Text.{
  all_chars, contains, strip, rstrip, lstrip, cons_unless, is_space, nonempty,
}
use lxd_management_api.Json.{str, get}
use lxd_management_api.Schemas.Fields.{one_of, exclude_none, dump_fields, name_char, matches_name}
use lxd_management_api.Schemas.Instances.{
  accepts_instance_create, architectures, instance_types, InstanceCreate, dump_instance_create,
  name_not_empty,
}

-- A character that a pattern does not allow occurs in no text that matches it.
contains-all_chars :
    (p : ℕ → Bool) (s : String) (c : ℕ) → all_chars p s ≡ true → p c ≡ false → contains c s ≡ false
unfolding all_chars contains
contains-all_chars p [] c h k = refl
contains-all_chars p (d ∷ s) c h k =
    ground (arith, contains-all_chars p s c, ap p {x = code d} {y = c})

name_char-is_space : (c : ℕ) → name_char c ≡ true → is_space c ≡ false
unfolding name_char
name_char-is_space c h = ground arith

and_true : (a b : Bool) → (a && b) ≡ true → (a ≡ true) × (b ≡ true)
and_true true b h = (refl, h)
and_true false b h = cc

cons_unless_kept :
    (c : Char) (s : String) → is_space (code c) ≡ false → cons_unless is_space c s ≡ c ∷ s
unfolding cons_unless
cons_unless_kept c [] h = rw h refl
cons_unless_kept c (d ∷ s) h = refl

rstrip-all_chars : (s : String) → all_chars name_char s ≡ true → rstrip is_space s ≡ s
unfolding rstrip all_chars
rstrip-all_chars [] h = refl
rstrip-all_chars (c ∷ s) h =
    let (one, rest) = and_true _ _ h in
    ap (cons_unless is_space c) (rstrip-all_chars s rest)
    ∙ cons_unless_kept c s (name_char-is_space (code c) one)

lstrip-all_chars : (s : String) → all_chars name_char s ≡ true → lstrip is_space s ≡ s
unfolding lstrip all_chars
lstrip-all_chars [] h = refl
lstrip-all_chars (c ∷ s) h =
    let (one, rest) = and_true _ _ h in rw (name_char-is_space (code c) one) refl

leb-true : (m n : ℕ) → leb m n ≡ true → m ≤ n
leb-true m n h = ground arith

count_filled : (s : String) → 1 ≤ String.count s → nonempty s ≡ true
count_filled [] h = absurd (ground arith)
count_filled (c ∷ s) h = refl

matched_name :
    (name : String)
    → matches_name name ≡ true
    → (1 ≤ String.count name)
      × (String.count name ≤ 63)
      × ((c : ℕ) → name_char c ≡ false → contains c name ≡ false)
      × (strip name ≡ name)
      × (name_not_empty name ≡ true)
unfolding matches_name strip name_not_empty
matched_name name h =
    let (bounds, pattern) = and_true _ _ h in
    let (low, high) = and_true _ _ bounds in
    let filled : 1 ≤ String.count name = leb-true 1 (String.count name) low in
    let bounded : String.count name ≤ 63 = leb-true (String.count name) 63 high in
    let same : strip name ≡ name =
      ap (lstrip is_space) (rstrip-all_chars name pattern) ∙ lstrip-all_chars name pattern in
    (
      filled,
      bounded,
      λ c k. contains-all_chars name_char name c pattern k,
      same,
      ap nonempty same ∙ count_filled name filled,
    )

-- A letter of ASCII, a digit, a dash or an underscore.
abbrev pub IsNameChar : ℕ → Type 0
IsNameChar c =
    ((65 ≤ c) × (c ≤ 90))
    ⊎ (((97 ≤ c) × (c ≤ 122)) ⊎ (((48 ≤ c) × (c ≤ 57)) ⊎ ((c ≡ 45) ⊎ (c ≡ 95))))

name_char-IsNameChar : (c : ℕ) → (name_char c ≡ true) ↔ IsNameChar c
unfolding name_char
name_char-IsNameChar c = (λ h. ground arith, λ h. ground arith)

num_eq-true : (m n : ℕ) → num_eq m n ≡ true → m ≡ n
num_eq-true m n h = ground arith

num_eq_refl : (n : ℕ) → num_eq n n ≡ true
num_eq_refl n = ground arith

or_right : (a b : Bool) → b ≡ true → (a || b) ≡ true
or_right true b h = refl
or_right false b h = h

both : {a b : Bool} → a ≡ true → b ≡ true → (a && b) ≡ true
both h k = rw (h, k) refl

all_chars-IsNameChar :
    (s : String) → (all_chars name_char s ≡ true) ↔ ((c : ℕ) → contains c s ≡ true → IsNameChar c)
unfolding all_chars contains
all_chars-IsNameChar [] = (λ h c k. cc, λ h. refl)
all_chars-IsNameChar (d ∷ s) = (
  λ h c k.
      let (one, rest) = and_true _ _ h in
      elim (Bool-cases (num_eq (code d) c)) [
        | inl e ↦ (name_char-IsNameChar c).0 (rw (← num_eq-true (code d) c e) one)
        | inr e ↦ (all_chars-IsNameChar s).0 rest c (rw e at k)
      ],
  λ h.
      both ((name_char-IsNameChar (code d)).1 (h (code d) (rw (num_eq_refl (code d)) refl)))
        ((all_chars-IsNameChar s).1 (λ c k. h c (or_right (num_eq (code d) c) (contains c s) k))),
)

all_true : {a b c : Bool} → a ≡ true → b ≡ true → c ≡ true → (a && b && c) ≡ true
all_true h k l = rw (h, k, l) refl

true-leb : (m n : ℕ) → m ≤ n → leb m n ≡ true
true-leb m n h = ground arith

accepted : {a b c d : Bool} → a ≡ true → b ≡ true → c ≡ true → d ≡ true → (a && b && c && d) ≡ true
accepted h k l m = rw (h, k, l, m) refl

-- `InstanceCreate` accepts a request exactly if its architecture and its type are among those listed and
-- its name has 1 to 63 characters, all of them letters of ASCII, digits, dashes or underscores; the
-- validator `_name_not_empty` refuses no name that the pattern and the bounds let through.
pub accepts_instance_create_lem :
    (p : InstanceCreate)
    → (accepts_instance_create p ≡ true) ↔ (
        (1 ≤ String.count p.name)
        × (String.count p.name ≤ 63)
        × ((c : ℕ) → contains c p.name ≡ true → IsNameChar c)
        × (one_of architectures p.architecture ≡ true)
        × (one_of instance_types p.instance_type ≡ true))
unfolding accepts_instance_create matches_name
accepts_instance_create_lem p = (
  λ h.
      let (rest, filled) = and_true _ _ h in
      let (fine, type) = and_true _ _ rest in
      let (name, architecture) = and_true _ _ fine in
      let (low, high, _, _, _) = matched_name p.name name in
      let (bounds, pattern) = and_true _ _ name in
      (low, high, (all_chars-IsNameChar p.name).0 pattern, architecture, type),
  λ (low, high, pattern, architecture, type).
      let name : matches_name p.name ≡ true =
        all_true (true-leb 1 (String.count p.name) low) (true-leb (String.count p.name) 63 high)
          ((all_chars-IsNameChar p.name).1 pattern) in
      accepted name architecture type (matched_name p.name name).4,
)

-- The body of `POST /1.0/instances` has the type of the instance under the key `instance_type`; the
-- value under the key `type`, if there is one, is that of an extra field of the request.
pub dump_instance_create-type :
    (p : InstanceCreate)
    → (get "instance_type" (dump_instance_create p) ≡ some (str p.instance_type))
      × (get "type" (dump_instance_create p) ≡ get "type" (exclude_none p.extra))
unfolding dump_instance_create dump_fields get
dump_instance_create-type p = (refl, refl)
