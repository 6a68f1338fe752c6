-- ===== src/Daemon/Recorded.antt =====
-- What `record` of packages/daemon/src/api.ts does on a session with a history.
use cueloop.Prelude.{◌≡◌, ◌∙◌, ap, [], ◌∷◌, Option, none, some, String}
use cueloop.Types.{Thread, SessionHistory, SessionEntry}
use cueloop.History.Defs.{Result, ok, err, ◌>>=◌, unknown_branch, lookup, tip_of}
use cueloop.History.Linear.{with_history, history_from_linear}
use cueloop.History.Writes.{NewEntry, append_entry, with_entry, full_entry, new_id}
use cueloop.Daemon.Entries.{recorded}

module _ (minted : String) (s : Thread) (e : NewEntry) {h : SessionHistory} {tip : String}
    (q : s.history ≡ some h) (l : lookup h.branch h.tips ≡ some tip) where
  pub append_entry-some :
      append_entry minted h e ≡ ok (with_entry h (full_entry minted tip e), full_entry minted tip e)
  unfolding append_entry tip_of
  append_entry-some =
      ap
        (λ (o : Option String).
          (elim o [ some t ↦ ok t | none ↦ err (unknown_branch h.branch) ]) >>= λ t.
          ok (with_entry h (full_entry minted t e), full_entry minted t e))
        l

  with_history-some : (with_history s).history ≡ some h
  unfolding with_history
  with_history-some = ap (λ o. (kept o).history) q ∙ q
    where
      given_one : Thread
      given_one = elim s.revisions [
        | [] ↦ s
        | _ ∷ _ ↦ elim (history_from_linear s) [ ok x ↦ record s { history = some x } | err _ ↦ s ]
      ]

      kept : Option SessionHistory → Thread
      kept o = elim o [ some _ ↦ s | none ↦ given_one ]

  abbrev appended : Result (SessionHistory × SessionEntry) → Result (Thread × Option String)
  appended r = r >>= λ p. ok (record s { history = some p.0 }, some p.1.id)

  -- An entry is appended behind the tip of the current branch.
  pub recorded-some :
      recorded minted s e
      ≡ ok (
        record s { history = some (with_entry h (full_entry minted tip e)) },
        some (new_id minted e),
      )
  unfolding recorded full_entry
  recorded-some =
      ap
        (λ (o : Option SessionHistory). elim o [
          | none ↦ ok (s, none)
          | some x ↦ appended (append_entry minted x e)
        ])
        with_history-some
      ∙ ap appended append_entry-some
