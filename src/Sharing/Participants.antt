-- ===== src/Sharing/Participants.antt =====
-- packages/schema/src/participants.ts.
use cueloop.Prelude.{
  ℕ, ◌≡◌, ◌≢◌, refl, ap, ◌∙◌, Bool, true, false, ◌&&◌, ◌||◌, List, [], ◌∷◌, ◌++◌, Option, none,
  some, String, Text, ◌==◌, nat_eq, string_eq, text_eq, if◌then◌else◌, find, leb, All, All-imp,
  Bool-cases, Option-cases, inl, inr, arith,
}
use cueloop.Prelude.Keyed.{Apart, find-none, Apart-append}
use cueloop.Types.{Thread, Identity, Provider}

pub record ParticipantSource : Type 0 where
  pub provider : Provider
  pub handle : Option String

-- The white space and the line ends of `trim`.
abbrev pub is_space : ℕ → Bool
is_space c =
    (leb 9 c && leb c 13)
    || c == 32
    || c == 160
    || c == 5760
    || (leb 8192 c && leb c 8202)
    || c == 8232
    || c == 8233
    || c == 8239
    || c == 8287
    || c == 12288
    || c == 65279

unfoldable pub trim_start : Text → Text
trim_start [] = []
trim_start (c ∷ s) = let rest = trim_start s in if is_space c then rest else c ∷ s

unfoldable pub trim_end : Text → Text
trim_end [] = []
trim_end (c ∷ s) = elim (trim_end s) [
  | [] ↦ if is_space c then [] else c ∷ []
  | d ∷ rest ↦ c ∷ d ∷ rest
]

abbrev pub trim : Text → Text
trim s = trim_end (trim_start s)

abbrev pub participants_of : Thread → List Identity
participants_of session = elim session.participants [ none ↦ [] | some p ↦ p ]

abbrev pub is_participant : String → Identity → Bool
is_participant author participant = participant.id == author

abbrev pub github_handle : Identity → Option String
github_handle participant = elim participant.provider [
  | Provider.github ↦ participant.handle
  | Provider.ssh ↦ none
]

unfoldable pub registered_github_login : Thread → String → Option String
registered_github_login session author =
    elim (find (is_participant author) (participants_of session)) [
      | none ↦ none
      | some existing ↦ github_handle existing
    ]

abbrev pub first_of {ℓ} : {A : Type ℓ} → Option A → Option A → Option A
first_of none b = b
first_of (some a) b = some a

-- An empty string is false.
abbrev pub non_blank : Option Text → Option Text
non_blank none = none
non_blank (some []) = none
non_blank (some (c ∷ s)) = some (c ∷ s)

abbrev pub non_blank_handle : Option String → Option String
non_blank_handle none = none
non_blank_handle (some h) = if h == "" then none else some h

abbrev pub source_handle : Option ParticipantSource → Option String
source_handle none = none
source_handle (some s) = s.handle

abbrev pub source_provider : Option ParticipantSource → Provider → Provider
source_provider none p = p
source_provider (some s) p = s.provider

abbrev pub trimmed : Option Text → Option Text
trimmed none = none
trimmed (some name) = some (trim name)

-- `next`, over the fields of the existing participant.
unfoldable pub next_identity :
    String
    → Option Text
    → Option ParticipantSource
    → Option Text
    → Option String
    → Provider
    → Identity
next_identity author name source old_name old_handle old_provider = record {
  id = author;
  provider = source_provider source old_provider;
  name = non_blank (first_of (trimmed name) old_name);
  handle = non_blank_handle (first_of (source_handle source) old_handle);
}

abbrev pub is_nameless : Option Text → Option ParticipantSource → Bool
is_nameless name (some _) = false
is_nameless name none = elim (non_blank (trimmed name)) [ none ↦ true | some _ ↦ false ]

unfoldable pub replaced : String → Identity → List Identity → List Identity
replaced author next [] = []
replaced author next (p ∷ ps) = (if p.id == author then next else p) ∷ replaced author next ps

unfoldable pub register_participant :
    Thread → String → Option Text → Option ParticipantSource → Thread
unfolding next_identity replaced
register_participant session author name source =
    elim (find (is_participant author) (participants_of session)) [
      | some existing ↦ if is_nameless name source then session else record session {
        participants = some (
            replaced author
              (next_identity author name source existing.name existing.handle existing.provider)
              (participants_of session));
      }
      | none ↦ record session {
        participants = some (
            participants_of session
            ++ next_identity author name source none none Provider.ssh ∷ []);
      }
    ]

abbrev pub same_identity : Identity → Identity → Bool
same_identity a b = a.id == b.id

replaced_other :
    (author : String) (next : Identity) (ps : List Identity) (i : String)
    → next.id ≡ author
    → i ≢ author
    → find (is_participant i) (replaced author next ps) ≡ find (is_participant i) ps
unfolding replaced
replaced_other author next [] i e n = refl
replaced_other author next (p ∷ ps) i e n =
    ground (arith, e, n, replaced_other author next ps i e n)

replaced_self :
    (author : String) (next : Identity) (ps : List Identity) {old : Identity}
    → next.id ≡ author
    → find (is_participant author) ps ≡ some old
    → find (is_participant author) (replaced author next ps) ≡ some next
unfolding replaced
replaced_self author next [] e f = cc
replaced_self author next (p ∷ ps) {old} e f =
    ground (arith, e, replaced_self author next ps {old = old} e)

appended_self :
    (author : String) (next : Identity) (ps : List Identity)
    → next.id ≡ author
    → find (is_participant author) ps ≡ none
    → find (is_participant author) (ps ++ next ∷ []) ≡ some next
appended_self author next [] e f = ground (arith, e)
appended_self author next (p ∷ ps) e f = ground (arith, appended_self author next ps e)

appended_other :
    (author : String) (next : Identity) (ps : List Identity) (i : String)
    → next.id ≡ author
    → i ≢ author
    → find (is_participant i) (ps ++ next ∷ []) ≡ find (is_participant i) ps
appended_other author next [] i e n = ground (arith, e, n)
appended_other author next (p ∷ ps) i e n = ground (arith, appended_other author next ps i e n)

replaced-All :
    (author : String) (next : Identity) (ps : List Identity) (p : Identity)
    → next.id ≡ author
    → All (λ q. same_identity p q ≡ false) ps
    → All (λ q. same_identity p q ≡ false) (replaced author next ps)
unfolding replaced
replaced-All author next [] p e h = tt
replaced-All author next (q ∷ ps) p e h = (ground (arith, h.0), replaced-All author next ps p e h.1)

replaced-Apart :
    (author : String) (next : Identity) (ps : List Identity)
    → next.id ≡ author
    → Apart same_identity ps
    → Apart same_identity (replaced author next ps)
unfolding replaced
replaced-Apart author next [] e h = tt
replaced-Apart author next (p ∷ ps) e h = (
  elim (Bool-cases (p.id == author)) [
    | inl t ↦
        let same : next.id ≡ p.id = ground arith in
        rw t (
          replaced-All author next ps next e
            (All-imp (λ q k. ap (λ (i : String). i == q.id) same ∙ k) ps h.0))
    | inr f ↦ rw f (replaced-All author next ps p e h.0)
  ],
  replaced-Apart author next ps e h.1,
)

-- Where the ids of the participants are distinct, `registerParticipant` keeps them distinct, has
-- its author among them, and leaves every other participant as it was.
pub register_participant_lem :
    (session : Thread) (author other : String) (name : Option Text)
    (source : Option ParticipantSource)
    → Apart same_identity (participants_of session)
    → other ≢ author
    → let after = participants_of (register_participant session author name source) in
      Apart same_identity after
      × ((next : Identity) × (find (is_participant author) after ≡ some next))
      × (find (is_participant other) after ≡ find (is_participant other) (participants_of session))
unfolding register_participant next_identity
register_participant_lem session author other name source d h =
    elim (Option-cases (find (is_participant author) (participants_of session))) [
      | inl n ↦
          let ps = participants_of session in
          let next = next_identity author name source none none Provider.ssh in
          rw (n, register_participant)
            (
              Apart-append same_identity next ps d (find-none _ ps n),
              (next, appended_self author next ps refl n),
              appended_other author next ps other refl h,
            )
      | inr (existing, f) ↦
          let ps = participants_of session in
          let next =
            next_identity author name source existing.name existing.handle existing.provider in
          elim (Bool-cases (is_nameless name source)) [
            | inl t ↦ rw (f, t, register_participant) (d, (existing, f), refl)
            | inr g ↦
                rw (f, g, register_participant)
                  (
                    replaced-Apart author next ps refl d,
                    (next, replaced_self author next ps {old = existing} refl f),
                    replaced_other author next ps other refl h,
                  )
          ]
    ]

-- A name of white space alone, given with a source, erases the name that a participant had.
pub register_participant-blank_name :
    (session : Thread) (author : String) (name : Text) (source : ParticipantSource)
    {existing : Identity}
    → find (is_participant author) (participants_of session) ≡ some existing
    → trim name ≡ []
    → (next : Identity) × (find
          (is_participant author)
          (participants_of (register_participant session author (some name) (some source)))
        ≡ some next)
      × (next.name ≡ none)
unfolding register_participant next_identity
register_participant-blank_name session author name source {existing} f t =
    let next =
      next_identity author (some name) (some source) existing.name existing.handle
        existing.provider in
    (
      next,
      rw (f, register_participant)
          (replaced_self author next (participants_of session) {old = existing} refl f),
      rw t,
    )
