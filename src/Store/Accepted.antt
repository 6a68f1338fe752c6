-- ===== src/Store/Accepted.antt =====
-- What `ThreadRecordSchema` of packages/daemon/src/validate.ts asks of the id, the history and the
-- cuts of a record.
use cueloop.Prelude.{
  ℕ, ◌+◌, Bool, true, false, ◌&&◌, List, [], ◌∷◌, Option, none, some, Text, ◌==◌, ◌!=◌, string_eq,
  nat_eq, text_eq, leb, length, all,
}
use cueloop.Types.{Thread, TextCut}
use cueloop.History.Validate.{validate_history}
use cueloop.WorkingCopy.Cuts.{slice, apply_text_cuts}

-- `cuts[index - 1]!.end <= cut.start`, with the end of the cut before, if there is one.
abbrev pub is_behind : Option ℕ → ℕ → Bool
is_behind none start = true
is_behind (some end) start = leb end start

-- `TextCutsSchema`
unfoldable pub accepts_cuts : Option ℕ → List TextCut → Bool
accepts_cuts previous [] = true
accepts_cuts previous (cut ∷ cuts) =
    cut.quote != []
    && cut.end == cut.start + length cut.quote
    && is_behind previous cut.start
    && accepts_cuts (some cut.end) cuts

abbrev pub is_text : Option Text → Text → Bool
is_text none text = false
is_text (some working_copy) text = working_copy == text

-- The check of the whole record: its cuts are of the artifact, and the working copy is what they
-- leave.
unfoldable pub matches_cuts : Thread → List TextCut → Bool
unfolding apply_text_cuts
matches_cuts t [] = true
matches_cuts t (cut ∷ cuts) =
    all (λ c. slice t.artifact.content c.start c.end == c.quote) (cut ∷ cuts)
    && is_text t.working_copy (apply_text_cuts t.artifact.content (cut ∷ cuts))

unfoldable pub accepts_record : Thread → Bool
unfolding accepts_cuts matches_cuts validate_history
accepts_record t =
    t.id != ""
    && (elim t.history [
      | none ↦ true
      | some history ↦ elim (validate_history history) [ none ↦ true | some _ ↦ false ]
    ])
    && (elim t.text_cuts [
      | none ↦ true
      | some cuts ↦ accepts_cuts none cuts && matches_cuts t cuts
    ])
