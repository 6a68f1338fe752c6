-- ===== src/Store/Lines.antt =====
-- Every write of packages/daemon/src/store.ts puts a line in the log of the session.
use cueloop.Prelude.{
  ◌≡◌, refl, sym, ◌∙◌, ap, Bool, true, false, ◌||◌, List, [], ◌∷◌, ◌++◌, Option, none, some, String,
  ◌==◌, string_eq, if◌then◌else◌, leb, Bool-cases, Option-cases, inl, inr, arith,
}
use cueloop.Prelude.Maps.{put}
use cueloop.Types.{Thread}
use cueloop.History.Defs.{lookup}
use cueloop.History.Growth.{lookup-insert}
use cueloop.Daemon.Core.{session_id, is_resolved}
use cueloop.Store.Logs.{
  Codec, Log, ThreadStore, log_path, log_at, path_for, write_whole, append_line, count_of,
  has_operations, compact_threshold, written, appended, upsert, accepts,
}
use cueloop.Store.Durable.{IsCodec, IsDurable, IsLine, IsLine-IsDurable, grown}

module _ {Line : Type 0} (codec : Codec Line) (ok : IsCodec codec) where
  module _ (store : ThreadStore Line) (v : (id : String) → IsDurable codec ok store id) where
    module _ (s : Thread) (accepted : accepts codec s ≡ true) where
      abbrev with_session : ThreadStore Line → ThreadStore Line
      with_session next = record next { sessions = put session_id s store.sessions }

      -- The whole of a log is its one line.
      write_whole-IsLine : IsLine codec ok store (with_session (write_whole codec s store)) s
      unfolding write_whole
      write_whole-IsLine =
          let (owner, i, w) = owner_of in
          record {
            owner = owner;
            path = path_for codec store s;
            before = [];
            accepted = accepted;
            own_id = i;
            own_path = w;
            same_path = λ p q. ap path_when q;
            files = λ j. lookup-insert s.id j (path_for codec store s) store.files;
            disk = refl;
            sessions = refl;
          }
        where
          path_when : Option String → String
          path_when o = elim o [ some path ↦ path | none ↦ codec.path_of s ]

          owner_of : (t : Thread) × (t.id ≡ s.id) × (codec.path_of t ≡ path_for codec store s)
          owner_of = elim (Option-cases (lookup s.id store.files)) [
            | inl n ↦ (s, refl, sym (ap path_when n))
            | inr (p, q) ↦ let (t, i, w) = (v s.id).owned p q in (t, i, w ∙ sym (ap path_when q))
          ]

      append_line-IsLine :
          (path : String)
          → lookup s.id store.files ≡ some path
          → IsLine codec ok store (with_session (append_line codec s path store)) s
      unfolding append_line
      append_line-IsLine path q =
          let (owner, i, w) = (v s.id).owned path q in
          let (xs, line) = line_of in
          record {
            owner = owner;
            path = path;
            before = xs;
            accepted = accepted;
            own_id = i;
            own_path = w;
            same_path = λ p r. ground (arith, sym q ∙ r);
            files = stays;
            disk = ap (λ (l : Log Line). put log_path l store.disk) line;
            sessions = refl;
          }
        where
          line_when : Option (Log Line) → Log Line
          line_when o = appended codec o path (codec.encode s)

          line_of :
              (xs : List Line) × (line_when (log_at store.disk path) ≡ grown codec ok path xs s)
          line_of = elim (Option-cases (log_at store.disk path)) [
            | inl n ↦ ([], ap line_when n)
            | inr (l, r) ↦
                let text : codec.join l.tail (codec.encode s) ≡ codec.encode s =
                  ap (λ t. codec.join t (codec.encode s)) ((v s.id).clean path l q r)
                  ∙ ok.joins (codec.encode s) in
                (
                  l.lines,
                  ap line_when r
                      ∙ ap
                          (λ t. record {
                            path = path;
                            lines = l.lines ++ t ∷ [];
                            tail = codec.empty;
                          })
                          text,
                )
          ]

          stays :
              (j : String)
              → lookup j store.files ≡ (if s.id == j then some path else lookup j store.files)
          stays j = elim (Bool-cases (s.id == j)) [
            | inl t ↦ rw t (ap (λ k. lookup k store.files) (ground arith) ∙ q)
            | inr f ↦ rw f refl
          ]

      -- A write of the store is such a line.
      pub upsert-IsLine : IsLine codec ok store (upsert codec s store) s
      unfolding upsert written
      upsert-IsLine = go (lookup s.id store.files) refl
        where
          compacts : Bool
          compacts =
              leb compact_threshold (count_of codec store s.id)
              || is_resolved s
              || has_operations codec s.message_operations

          next : Option String → ThreadStore Line
          next o = elim o [
            | none ↦ write_whole codec s store
            | some path ↦
                if compacts then write_whole codec s store else append_line codec s path store
          ]

          go :
              (o : Option String)
              → lookup s.id store.files ≡ o
              → IsLine codec ok store (with_session (next o)) s
          go none q = write_whole-IsLine
          go (some path) q = go_line compacts
            where
              go_line :
                  (b : Bool)
                  → IsLine codec ok store
                      (with_session
                        (if b then write_whole codec s store else append_line codec s path store))
                      s
              go_line true = write_whole-IsLine
              go_line false = append_line-IsLine path q

      -- It leaves the session's record on the disk, and the others' as they are.
      pub upsert-IsDurable : (id : String) → IsDurable codec ok (upsert codec s store) id
      upsert-IsDurable = IsLine-IsDurable codec ok upsert-IsLine v
