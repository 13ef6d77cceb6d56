-- ===== src/Routes/Endpoint/Reaching.antt =====
-- What the requests to LXD reach. The HTTP client resolves the dot segments of a URL before it sends it:
-- its function for that is a parameter, and does nothing to a URL without such segments.
use lxd_management_api.Base.{◌≡◌, String, ◌==◌, ◌||◌, false, Bool, List, [], ◌∷◌, if◌then◌else◌}
use lxd_management_api.Base.Text.{split}
use lxd_management_api.App.{Log}
use lxd_management_api.Routes.Scope.{in_scope}
use lxd_management_api.Routes.Endpoint.{Endpoint}

-- Whether one of the segments is a dot segment.
abbrev any_dots : List String → Bool
any_dots [] = false
any_dots (s ∷ ss) = s == "." || (s == ".." || any_dots ss)

unfoldable pub dotted : String → Bool
dotted url = any_dots (split b'/' url)

-- The URL without dot segments.
abbrev pub IsResolver : (String → String) → Type 0
IsResolver resolve = (url : String) → dotted url ≡ false → resolve url ≡ url

module _ (resolve : String → String) where
  -- The requests of a log, other than GET, that reach something other than instances and operations, by
  -- a URL without dot segments.
  unfoldable pub reaching : Log → Log
  unfolding dotted in_scope
  reaching [] = []
  reaching (r ∷ log) =
      let rest = reaching log in
      if dotted r.url || in_scope (record r { url = resolve r.url }) then rest else r ∷ rest

  plain : Log → Log
  unfolding dotted
  plain [] = []
  plain (r ∷ log) = let rest = plain log in if dotted r.url then rest else r ∷ rest
