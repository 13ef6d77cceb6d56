-- ===== src/Json/Laws.antt =====
-- The laws of dictionaries.
use lxd_management_api.Base.{
  String, ◌==◌, eq_iff, eq_refl, ◌≡◌, refl, ◌≢◌, none, some, arith, if◌then◌else◌,
}
use lxd_management_api.Json.{Value, Dict, empty, entry, get, get_or, put, pop, NodupKeys}

pub get-put :
    (k j : String) (v : Value) (d : Dict) → get j (put k v d) ≡ (if k == j then some v else get j d)
unfolding get put
get-put k j v empty = refl
get-put k j v (entry i w d) = ground (arith, eq_iff k j, eq_iff i k, eq_iff i j, get-put k j v d)

pub get-pop : (k j : String) (d : Dict) → get j (pop k d) ≡ (if k == j then none else get j d)
unfolding get pop
get-pop k j empty = ground arith
get-pop k j (entry i w d) = ground (arith, eq_iff k j, eq_iff i k, eq_iff i j, get-pop k j d)

pub get-put_self : (k : String) (v : Value) (d : Dict) → get k (put k v d) ≡ some v
get-put_self k v d = simp (get-put, eq_refl)

pub get-put_ne : (k j : String) (v : Value) (d : Dict) → k ≢ j → get j (put k v d) ≡ get j d
get-put_ne k j v d h = ground (arith, get-put k j v d, eq_iff k j)

pub get-pop_self : (k : String) (d : Dict) → get k (pop k d) ≡ none
get-pop_self k d = simp (get-pop, eq_refl)

pub get-pop_ne : (k j : String) (d : Dict) → k ≢ j → get j (pop k d) ≡ get j d
get-pop_ne k j d h = ground (arith, get-pop k j d, eq_iff k j)

pub put-NodupKeys : (k : String) (v : Value) (d : Dict) → NodupKeys d → NodupKeys (put k v d)
unfolding put get
put-NodupKeys k v empty h = (refl, tt)
put-NodupKeys k v (entry j w d) (fresh, h) =
    ground (arith, put-NodupKeys k v d h, get-put k j v d, eq_iff k j, eq_iff j k)

pub pop-NodupKeys : (k : String) (d : Dict) → NodupKeys d → NodupKeys (pop k d)
unfolding pop get
pop-NodupKeys k empty h = tt
pop-NodupKeys k (entry j w d) (fresh, h) =
    ground (arith, pop-NodupKeys k d h, get-pop k j d, eq_iff k j, eq_iff j k)

-- Removing a key that is not there changes nothing.
pub pop_absent : (k : String) (d : Dict) → get k d ≡ none → pop k d ≡ d
unfolding pop get
pop_absent k empty h = refl
pop_absent k (entry j w d) h = ground (arith, pop_absent k d)

-- Removing what was just added gives the old dictionary back, if the key was new.
pub pop-put : (k : String) (v : Value) (d : Dict) → get k d ≡ none → pop k (put k v d) ≡ d
unfolding pop put get
pop-put k v empty h = simp eq_refl
pop-put k v (entry j w d) h = ground (arith, pop-put k v d)

pub get_or-some :
    (k : String) (default : Value) (d : Dict) {v : Value}
    → get k d ≡ some v
    → get_or k default d ≡ v
unfolding get_or
get_or-some k default d h = rw (h, get_or)

pub get_or-none :
    (k : String) (default : Value) (d : Dict) → get k d ≡ none → get_or k default d ≡ default
unfolding get_or
get_or-none k default d h = rw (h, get_or)

pub ruleset dict_laws = (get-put, get-pop)
