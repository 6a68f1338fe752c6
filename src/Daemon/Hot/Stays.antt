-- ===== src/Daemon/Hot/Stays.antt =====
-- A capture leaves the status of its session as it is (packages/daemon/src/api.ts).
use cueloop.Prelude.{
  ◌≡◌, refl, Bool, true, false, ◌&&◌, Option, none, some, String, ◌==◌, string_eq, text_eq, nat_eq,
  Bool-cases, inl, inr,
}
use cueloop.Types.{Thread, SessionHistory, SessionStatus}
use cueloop.History.Defs as H
use cueloop.History.Defs.{main_branch}
use cueloop.History.Linear.{with_history}
use cueloop.History.Writes.{recapture_main_head}
use cueloop.Daemon.Refresh.{
  VcsDiffSnapshot, PrSnapshot, recapture_last, is_at, with_pull, record_captured_diff_revision,
  pulled,
}
use cueloop.Daemon.Stay.{Holds, Stays, KeepsStatus, recorded_on-KeepsStatus}

alone : H.Result (Thread × Option String) → H.Result Thread
alone r = elim r [ H.ok p ↦ H.ok p.0 | H.err e ↦ H.err e ]

alone-Holds :
    (status : SessionStatus) (r : H.Result (Thread × Option String))
    → KeepsStatus status r
    → Holds (λ t. t.status ≡ status) (alone r)
unfolding alone
alone-Holds status (H.ok p) k = k
alone-Holds status (H.err e) k = tt

pub record_captured-Stays :
    (minted now : String) (s : Thread) (diff : VcsDiffSnapshot) (pinned : Bool)
    → Stays (λ t. t) s.status (record_captured_diff_revision minted now s diff pinned)
unfolding record_captured_diff_revision alone
record_captured-Stays minted now s diff true =
    (refl, alone-Holds s.status _ (recorded_on-KeepsStatus minted _ main_branch _))
record_captured-Stays minted now s diff false = (refl, go (with_history s).history)
  where
    live : Thread
    live = record s { revisions = recapture_last diff s.revisions }

    head : H.Result SessionHistory → H.Result Thread
    head r = elim r [ H.ok h ↦ H.ok (record live { history = some h }) | H.err e ↦ H.err e ]

    head-Holds : (r : H.Result SessionHistory) → Holds (λ t. t.status ≡ s.status) (head r)
    head-Holds (H.ok h) = refl
    head-Holds (H.err e) = tt

    go :
        (o : Option SessionHistory)
        → Holds
            (λ (t : Thread). t.status ≡ s.status)
            (elim o [ none ↦ H.ok live | some h ↦ head (recapture_main_head h diff.patch) ])
    go none = refl
    go (some h) = head-Holds (recapture_main_head h diff.patch)

pub pulled-Stays :
    (minted now : String) (s : Thread) (snapshot : PrSnapshot)
    → Stays (λ t. t) s.status (pulled minted now s snapshot)
unfolding pulled with_pull alone
pulled-Stays minted now s snapshot =
    elim (Bool-cases (
      snapshot.patch == s.artifact.content
      && is_at s.artifact.meta snapshot.base_sha snapshot.head_sha)) [
        | inl t ↦ rw t (refl, refl)
        | inr f ↦
            rw f (refl, alone-Holds s.status _ (recorded_on-KeepsStatus minted _ main_branch _))
      ]
