-- ===== src/Tests/Limits.antt =====
-- A limiter that writes down what it lets through, and two logins in one minute.
use lxd_management_api.Base.{
  ℕ, ◌+◌, ◌/◌, ◌*◌, num_eq, ltb, String, ◌==◌, Bool, true, false, ◌&&◌, List, [], ◌∷◌,
}
use lxd_management_api.Limits.{Limiter, one_if}
use lxd_management_api.Limits.Attempts.{Call, login_call}
use lxd_management_api.Tests.Fixtures.{accounts, test_auth}

record Entry : Type 0 where
  route : String
  address : String
  start : ℕ

abbrev count : List Entry → String → String → ℕ → ℕ
count [] r a w = 0
count (e ∷ es) r a w =
    count es r a w + one_if (e.route == r && (e.address == a && num_eq e.start w))

abbrev written : List Entry → Entry → Bool → Bool × List Entry
written es e true = (true, e ∷ es)
written es e false = (false, es)

abbrev ledger : Limiter
ledger = record {
  State = List Entry;
  window = λ es route address period now. now / 60 * 60;
  hits = count;
  hit = λ es route address limit period now.
      written es (record { route = route; address = address; start = now / 60 * 60 })
        (ltb (count es route address (now / 60 * 60)) limit);
}

abbrev another : List (Call test_auth)
another = login_call "10.0.0.7" 20 accounts "alice" "guess" ∷ []
