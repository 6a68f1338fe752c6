-- ===== src/Daemon/Tracking.antt =====
-- The hot reload and the deliveries of `DaemonCore` (packages/daemon/src/api.ts): which sessions
-- are followed, and the message that a session's submitting harness is owed. The diff watcher and
-- the poller are the list of the sessions that they follow.
use cueloop.Prelude.{
  Bool, true, false, not, ◌&&◌, ◌||◌, [], ◌∷◌, ◌++◌, Option, none, some, String, ◌!=◌, string_eq,
  if◌then◌else◌, filter, has,
}
use cueloop.Types.{Thread, ArtifactType, ArtifactMeta}
use cueloop.Agents.Receipts.{given}
use cueloop.Routing.Store.{Store, submitting_binding, enqueue}
use cueloop.Daemon.Core.{Call, is_resolved, ok}

abbrev pub is_diff : Thread → Bool
is_diff s = elim s.artifact.type [ ArtifactType.diff ↦ true | _ ↦ false ]

abbrev pub is_set {ℓ} : {A : Type ℓ} → Option A → Bool
is_set none = false
is_set (some _) = true

abbrev pub is_workbench : ArtifactMeta → Bool
is_workbench meta = elim meta.workbench [ none ↦ false | some b ↦ b ]

unfoldable pub is_working_tree_diff_session : Thread → Bool
is_working_tree_diff_session s =
    not (is_resolved s)
    && is_diff s
    && not (is_set s.artifact.meta.pr)
    && not (is_set (given s.artifact.meta.vcs_change_id) && not (is_workbench s.artifact.meta))

unfoldable pub is_pr_review_session : Thread → Bool
is_pr_review_session s = not (is_resolved s) && is_diff s && is_set s.artifact.meta.pr

unfoldable pub track_live_diff_session : Thread → Call (Unit {0})
unfolding is_working_tree_diff_session is_pr_review_session
track_live_diff_session s c = (
  ok tt,
  record c {
    tracked =
        if (is_working_tree_diff_session s || is_pr_review_session s) && not (has c.tracked s.id)
        then c.tracked ++ s.id ∷ []
        else c.tracked;
  },
)

unfoldable pub untrack_live_diff_session : Thread → Call (Unit {0})
untrack_live_diff_session s c = (
  ok tt,
  record c { tracked = if is_diff s then filter (λ i. i != s.id) c.tracked else c.tracked },
)

-- The message of the session goes to the binding that submitted it.
unfoldable pub delivered : String → String → Thread → Store → Store
delivered minted now s routing = elim s.message [
  | none ↦ routing
  | some m ↦ elim (submitting_binding routing s.id) [
    | none ↦ routing
    | some b ↦ (enqueue minted now routing (record { binding_id = b.id; message_id = m.id })).0
  ]
]

-- `minted` and `now` are those of the delivery that it may make.
unfoldable pub reconcile_deliveries : String → String → Thread → Call (Unit {0})
reconcile_deliveries minted now s c =
    (ok tt, record c { routing = delivered minted now s c.routing })
