-- ===== src/StoreSync/Examples.antt =====
-- A listing, a version that is read, and a batch that is synced twice: the results on
-- app/services/evidence_store at concrete inputs.
use mathlib.Core.Option.{some-injective}
use ai_agent_first_trust_por.Prelude.{
  ◌+◌, String, false, none, some, List, [], ◌∷◌, ◌≡◌, refl, subst, arith, suc, find, Bool-cases,
  inl, inr,
}
use ai_agent_first_trust_por.Auth.Header.{same_text}
use ai_agent_first_trust_por.EvidenceKeys.{pentest_evidence, stored_key}
use ai_agent_first_trust_por.StoreSync.Listing.{ListedVersion, KeyGroup}
use ai_agent_first_trust_por.StoreSync.Tally.{
  ingested, Counts, Tally, note_groups, add_status, count_status,
}
use ai_agent_first_trust_por.StoreSync.Fetch.{
  Bytes, Head, Body, chunks, passes, Fetched, fetched, fetch_version, full_object_type,
  stored_checksum, partition, body_read, read_chunks, held_to, by_kind,
}
use ai_agent_first_trust_por.StoreSync.Verified.{IsVerified, joined, fetch-verified}
use ai_agent_first_trust_por.StoreSync.Process.{
  Row, outcome, World, process_candidates, candidates, to_process, recorded_version,
  process_version, write, committed, write_version, record_row, record_found, row_of, Answers,
  commits, fails, synced, has_id, process_batch,
}
use ai_agent_first_trust_por.StoreSync.Listed.{AllTallied}
use ai_agent_first_trust_por.StoreSync.Counted.{outcomes, counts_of, batch-balanced}
use ai_agent_first_trust_por.StoreSync.Stands.{IdsUnique, batch-settled_stands}

abbrev version : String → ListedVersion
version id = record { key = 97 ∷ []; version_id = id; size = 2; delete_marker = false }

abbrev no_counts : Counts
no_counts = record {
  listed = 0;
  new = 0;
  ingested = 0;
  unchanged = 0;
  recorded = 0;
  duplicate = 0;
  rejected = 0;
  non_conforming = 0;
  too_large = 0;
  errors = 0;
  anomalies = 0;
  reevaluated = 0;
}

abbrev start : Tally
start = record { counts = no_counts; anomalies = []; errors = [] }

abbrev two_pages : List (List ListedVersion)
two_pages = (version "2" ∷ []) ∷ (version "1" ∷ []) ∷ []

-- a digest of 32 bytes
abbrev digest : Bytes
digest =
    0 ∷ 0 ∷ 0 ∷ 0 ∷ 0 ∷ 0 ∷ 0 ∷ 0 ∷ 0 ∷ 0 ∷ 0 ∷ 0 ∷ 0 ∷ 0 ∷ 0 ∷ 0 ∷ 0 ∷ 0 ∷ 0 ∷ 0 ∷ 0 ∷ 0 ∷ 0 ∷ 0
    ∷ 0 ∷ 0 ∷ 0 ∷ 0 ∷ 0 ∷ 0 ∷ 0 ∷ 7 ∷ []

abbrev head : Head
head = record {
  content_length = some 2;
  checksum_sha256 = 65 ∷ [];
  checksum_type = some full_object_type;
}

abbrev body : Body
body = chunks ((1 ∷ []) ∷ (2 ∷ []) ∷ [])

abbrev good : Fetched
good = record {
  kind = pentest_evidence;
  size = 2;
  sha256 = some digest;
  composite_checksum = none;
  status = none;
  content = some (1 ∷ 2 ∷ []);
}

fetch-verified_example :
    (cs : List Bytes) × (body ≡ chunks cs)
    × IsVerified
        (λ bytes. digest)
        (λ s. some digest)
        (λ k bytes. passes)
        pentest_evidence
        2
        head
        (joined cs)
        good
unfolding fetch_version stored_checksum partition body_read read_chunks held_to same_text by_kind
fetch-verified_example =
    fetch-verified (λ bytes. digest) (λ s. some digest) (λ k bytes. passes) pentest_evidence 2 head
      body good refl refl

abbrev answers : ListedVersion → Answers
answers v = record {
  new_id = "r1";
  fetch = fetched good;
  first = commits ingested;
  second = fails;
  refusal = fails;
  failure = fails;
}

abbrev batch : List KeyGroup
batch =
    record {
      key = 97 ∷ [];
      first = some (version "1");
      later = version "2" ∷ [];
      later_count = 1;
      markers = [];
      marker_count = 0;
    }
    ∷ []

abbrev row : Row
row = record {
  id = "r1";
  key = 97 ∷ [];
  key_escaped = false;
  version_id = "1";
  kind = pentest_evidence;
  status = outcome ingested;
  attempts = 0;
  sha256 = some digest;
  composite_checksum = none;
  size = 2;
}

abbrev empty : World
empty = record { rows = []; tally = start }

abbrev noted : Tally
noted = note_groups batch start

abbrev after : World
after = record {
  rows = row ∷ [];
  tally = record noted {
    counts = record noted.counts {
      new = suc noted.counts.new;
      ingested = suc noted.counts.ingested;
    };
  };
}

-- the world after a second sync
abbrev again : World
again = record after { tally = note_groups batch after.tally }

batch-AllTallied : AllTallied batch
batch-AllTallied = (record { later_within = omega arith; markers_within = omega arith }, tt)

first_sync : process_batch answers batch empty ≡ synced after
unfolding process_batch process_candidates candidates to_process recorded_version process_version
    write committed write_version add_status record_row count_status record_found row_of stored_key
first_sync = refl

batch-balanced_example :
    outcomes (counts_of after) + (counts_of empty).new
    ≡ outcomes (counts_of empty) + (counts_of after).new
batch-balanced_example = batch-balanced answers batch empty after batch-AllTallied first_sync

after-again : process_batch answers batch after ≡ synced again
unfolding process_batch process_candidates candidates to_process recorded_version same_text
    stored_key
after-again = refl

after-IdsUnique : IdsUnique after.rows
after-IdsUnique test q found = elim (Bool-cases (test row)) [
  | inl holds ↦
      let e : row ≡ q = some-injective row q (rw holds at found) in
      subst (λ (x : Row). find (has_id x.id) after.rows ≡ some x) e refl
  | inr fails_test ↦ let e : none ≡ some q = rw fails_test at found in cc
]

batch-settled_stands_example : find (has_id "r1") again.rows ≡ some row
batch-settled_stands_example =
    batch-settled_stands answers batch after again "r1" row after-IdsUnique refl refl after-again
