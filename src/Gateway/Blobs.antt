-- ===== src/Gateway/Blobs.antt =====
-- `MemoryShareStore` of packages/gateway/src/store.ts. An id is a text, since the code slices it;
-- the present time is an argument.
use cueloop.Prelude.{
  ℕ, ◌+◌, ◌-◌, ◌≡◌, ◌≢◌, Bool, false, not, ◌&&◌, List, [], ◌∷◌, Option, none, some, Text, ◌==◌,
  text_eq, if◌then◌else◌, ltb, leb, length, take, drop, arith,
}

abbrev pub share_ttl_ms : ℕ
share_ttl_ms = 2592000000

-- `nowMs - storedAtMs >= ttlMs`
unfoldable pub is_expired : ℕ → ℕ → ℕ → Bool
is_expired stored_at now ttl = leb (stored_at + ttl) now

pub record Blob : Type 0 where
  pub bytes : Text
  pub stored_at : ℕ

-- The `Map`, as its entries.
abbrev pub Blobs : Type 0
Blobs = List (Text × Blob)

unfoldable pub blob_of : Blobs → Text → Option Blob
blob_of [] id = none
blob_of ((i, b) ∷ blobs) id = if i == id then some b else blob_of blobs id

unfoldable pub set_blob : Blobs → Text → Blob → Blobs
set_blob [] id b = (id, b) ∷ []
set_blob ((i, old) ∷ blobs) id b =
    if i == id then (i, b) ∷ blobs else (i, old) ∷ set_blob blobs id b

unfoldable pub delete_blob : Blobs → Text → Blobs
delete_blob [] id = []
delete_blob ((i, b) ∷ blobs) id =
    let rest = delete_blob blobs id in if i == id then rest else (i, b) ∷ rest

-- `".agent"`
abbrev pub agent_suffix : Text
agent_suffix = b'.' ∷ b'a' ∷ b'g' ∷ b'e' ∷ b'n' ∷ b't' ∷ []

unfoldable pub retention_key : Text → Text
retention_key id =
    if leb 6 (length id) && drop (length id - 6) id == agent_suffix
    then take (length id - 6) id
    else id

unfoldable pub put : Blobs → Text → Text → ℕ → Blobs
put blobs id bytes now = set_blob blobs id (record { bytes = bytes; stored_at = now })

abbrev pub is_retained : Option Blob → ℕ → Bool
is_retained none now = false
is_retained (some retention) now = not (is_expired retention.stored_at now share_ttl_ms)

unfoldable pub get : Blobs → Text → ℕ → Blobs × Option Text
unfolding is_expired
get blobs id now = elim (blob_of blobs id) [
  | none ↦ (blobs, none)
  | some entry ↦
      if is_retained (blob_of blobs (retention_key id)) now
      then (blobs, some entry.bytes)
      else (delete_blob blobs id, none)
]

unfoldable pub delete : Blobs → Text → Blobs
delete blobs id = delete_blob blobs id

blob_of-set_blob :
    (blobs : Blobs) (id i : Text) (b : Blob)
    → blob_of (set_blob blobs id b) i ≡ (if id == i then some b else blob_of blobs i)
unfolding blob_of set_blob
blob_of-set_blob [] id i b = ground arith
blob_of-set_blob ((j, old) ∷ blobs) id i b = ground (arith, blob_of-set_blob blobs id i b)

blob_of-delete_blob :
    (blobs : Blobs) (id i : Text)
    → blob_of (delete_blob blobs id) i ≡ (if id == i then none else blob_of blobs i)
unfolding blob_of delete_blob
blob_of-delete_blob [] id i = ground arith
blob_of-delete_blob ((j, old) ∷ blobs) id i = ground (arith, blob_of-delete_blob blobs id i)

-- An artifact, whose id is its own retention key, that is written at a time reads as its bytes until thirty days have passed and as
-- gone from then on; a later revocation leaves nothing to read, and the other ids keep their blobs.
pub get-put :
    (blobs : Blobs) (id other bytes : Text) (stored now : ℕ)
    → retention_key id ≡ id
    → other ≢ id
    → let after = put blobs id bytes stored in
      ((get after id now).1 ≡ (if ltb now (stored + share_ttl_ms) then some bytes else none))
      × ((get (delete after id) id now).1 ≡ none)
      × (blob_of (get after id now).0 other ≡ blob_of blobs other)
unfolding get put delete is_expired
get-put blobs id other bytes stored now r n =
    let b : Blob = record { bytes = bytes; stored_at = stored } in
    let here = blob_of-set_blob blobs id id b in
    let there = blob_of-set_blob blobs id other b in
    let gone = blob_of-delete_blob (set_blob blobs id b) id id in
    let kept = blob_of-delete_blob (set_blob blobs id b) id other in
    (ground (arith, r, here), ground (arith, r, gone), ground (arith, r, n, here, there, kept))

-- The companion of an artifact is never read once the artifact is gone or has expired, however
-- recently it was itself written.
pub get-companion :
    (blobs : Blobs) (id bytes : Text) (stored now : ℕ)
    → retention_key id ≢ id
    → is_retained (blob_of blobs (retention_key id)) now ≡ false
    → (get (put blobs id bytes stored) id now).1 ≡ none
unfolding get put is_expired
get-companion blobs id bytes stored now n r =
    let b : Blob = record { bytes = bytes; stored_at = stored } in
    let there = blob_of-set_blob blobs id (retention_key id) b in
    let here = blob_of-set_blob blobs id id b in ground (arith, here, there, r, n)
