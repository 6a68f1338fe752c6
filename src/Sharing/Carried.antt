-- ===== src/Sharing/Carried.antt =====
-- What a share's history holds, read off the whole history (packages/schema/src/history.ts,
-- `followBranch`).
use cueloop.Prelude.{
  ◌≡◌, refl, sym, ap, ◌∙◌, subst, List, [], ◌∷◌, Option, none, some, String, ◌==◌, string_eq,
  if◌then◌else◌, any, get_last?, Option-cases, inl, inr, arith,
}
use cueloop.Types.{SessionEntry, SessionHistory, Dictionary}
use cueloop.History.Defs.{ok, Result-cases, lookup, insert, by_id, tip_of, path_from}
use cueloop.History.Growth.{lookup-insert}
use cueloop.History.Walks.{Walk, rev_onto, path_from-iff_Walk}
use cueloop.History.Writes.{follow_branch, labels_of}

-- The history of one branch: its entries are the chain of parents from the branch's tip, root
-- first, its only tip is the last of them, and its labels are those of its entries.
pub record IsBranchOf (own : SessionHistory) (name : String) (history : SessionHistory)
    : Type 0 where
  pub tip : String
  pub chain : List SessionEntry
  pub last : SessionEntry
  pub tipped : lookup name own.tips ≡ some tip
  pub walked : Walk own.entries (by_id own.entries tip) chain
  pub entries : history.entries ≡ rev_onto chain []
  pub ended : get_last? (rev_onto chain []) ≡ some last
  pub tips : history.tips ≡ (name, last.id) ∷ []
  pub branch : history.branch ≡ name
  pub labels :
      (id : String)
      → lookup id history.labels
        ≡ (if any (λ e. e.id == id) history.entries then lookup id own.labels else none)

abbrev first_label : Option String → Option String → Option String
first_label none before = before
first_label (some l) before = some l

first_label-none : (o : Option String) → first_label o none ≡ o
first_label-none none = refl
first_label-none (some l) = refl

lookup-labels_of :
    (labels : Dictionary) (es : List SessionEntry) (new : Dictionary) (id : String)
    → lookup id (labels_of labels es new) ≡ (
        if any (λ e. e.id == id) es
        then first_label (lookup id labels) (lookup id new)
        else lookup id new)
unfolding labels_of
lookup-labels_of labels [] new id = refl
lookup-labels_of labels (e ∷ es) new id = elim (Option-cases (lookup e.id labels)) [
  | inl n ↦ rw n (ground (arith, n, lookup-labels_of labels es new id))
  | inr (l, f) ↦ rw f (
      ground
        (arith, f, lookup-insert e.id id l new, lookup-labels_of labels es (insert e.id l new) id))
]

pub follow_branch-IsBranchOf :
    (own : SessionHistory) (name : String) {history : SessionHistory}
    → follow_branch own name ≡ ok history
    → IsBranchOf own name history
unfolding follow_branch tip_of
follow_branch-IsBranchOf own name {history} f = elim (Option-cases (lookup name own.tips)) [
  | inl n ↦ absurd (ground arith)
  | inr (tip, t) ↦ elim (Result-cases (path_from own tip)) [
    | inr (x, p) ↦ absurd (ground arith)
    | inl (path, p) ↦
        let (chain, walked, e) = (path_from-iff_Walk own tip path).1 p in
        elim (Option-cases (get_last? path)) [
          | inl n ↦ absurd (ground arith)
          | inr (last, l) ↦
              let same : record {
                entries = path;
                tips = (name, last.id) ∷ [];
                branch = name;
                labels = labels_of own.labels path [];
              }
                  ≡ history =
                ground arith in
              subst (IsBranchOf own name) same (record {
                tip = tip;
                chain = chain;
                last = last;
                tipped = t;
                walked = walked;
                entries = e;
                ended = ap get_last? (sym e) ∙ l;
                tips = refl;
                branch = refl;
                labels = λ id.
                    lookup-labels_of own.labels path [] id
                    ∙ ap (λ o. if any (λ e. e.id == id) path then o else none)
                        (first_label-none (lookup id own.labels));
              })
        ]
  ]
]
