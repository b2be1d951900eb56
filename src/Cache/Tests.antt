-- ===== src/Cache/Tests.antt =====
-- A lock that one holder has and another wants.
use marketplace_api.Prelude.{Text, false, none, refl, some, text, ◌≡◌, Text-discrete, ℕ_discrete}
use marketplace_api.Redis.{Redis}
use marketplace_api.Cache.Lock.{acquire, release}

abbrev unlocked : Redis Text
unlocked k = none

abbrev locked : Redis Text
locked = (acquire 5 (text "l") (text "a") 100 unlocked).1

held : acquire 5 (text "l") (text "a") 100 unlocked ≡ (some (text "a"), locked)
unfolding acquire
held = refl

other_refused : acquire 50 (text "l") (text "b") 100 locked ≡ (none, locked)
unfolding acquire Text-discrete ℕ_discrete
other_refused = refl

other_keeps_it : (release 50 (text "l") (text "b") locked).0 ≡ false
unfolding acquire release Text-discrete ℕ_discrete
other_keeps_it = refl
