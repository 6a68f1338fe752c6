-- ===== src/Examples/RetentionExamples.antt =====
-- A store of a resolved session and a pending one (packages/daemon/src/retention.ts).
use cueloop.Prelude.{ℕ, ◌≡◌, refl, arith, [], ◌∷◌, Option, some, String, string_dec}
use cueloop.Types.{Thread, SessionStatus}
use cueloop.Retention.{is_expired, prune_expired_sessions, prune_expired_sessions_lem}
use cueloop.Examples.SharingExamples.{session}

-- Every time is read as the start of the epoch.
abbrev parse : String → Option ℕ
parse _ = some 0

abbrev old : Thread
old = record session { id = "resolved"; status = SessionStatus.resolved }

prune_expired_sessions_lem_example :
    (prune_expired_sessions parse (old ∷ session ∷ []) (session ∷ old ∷ []) 30 2592000001 []).0
    ≡ session ∷ []
unfolding string_dec is_expired native.Mathlib.Decide.ℕ_discrete
prune_expired_sessions_lem_example =
    prune_expired_sessions_lem parse (old ∷ session ∷ []) (session ∷ old ∷ []) 30 2592000001 []
      ((refl, tt), (tt, tt)) (λ p. ground arith)
