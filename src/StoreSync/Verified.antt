-- ===== src/StoreSync/Verified.antt =====
-- What is known of a version that app/services/evidence_store/sync.py goes on to import.
use ai_agent_first_trust_por.Prelude.{
  ℕ, ◌≤◌, Bool, true, false, not, ◌&&◌, ◌||◌, Option, none, some, List, [], ◌∷◌, ◌++◌, ◌≡◌, ◌⊎◌,
  refl, sym, ap, subst, ◌∙◌, arith, append_assoc, append-nil, ltb, ◌==◌, length, length-append,
  is_some, Option-cases, Bool-cases, inl, inr, if◌then◌else◌,
}
use ai_agent_first_trust_por.Auth.Header.{same_text}
use ai_agent_first_trust_por.EvidenceKeys.{
  Classified, decision_log, decision_log_sidecar, pentest_evidence, evidence_document, unmapped,
}
use ai_agent_first_trust_por.StoreSync.Tally.{recorded, non_conforming, too_large}
use ai_agent_first_trust_por.StoreSync.Fetch.{
  Bytes, full, Head, Body, chunks, checksum_error, unreadable, read_chunks, Check, passes, refused,
  over_limit, Fetched, fetched, kind_limit, max_of, settled, differs, size_or, full_of,
  composite_of, is_problem, stored_checksum, hash_non_conforming, checked, by_kind, held_to,
  read_body, body_read, within_limit, with_head, fetch_version,
}

-- the bytes of a body
abbrev pub joined : List Bytes → Bytes
joined [] = []
joined (c ∷ cs) = c ++ joined cs

-- A body is read whole if it is within the limit, and refused if it is not.
pub read_chunks-eq :
    (limit : ℕ) (read : Bytes) (cs : List Bytes)
    → length read ≤ limit
    → read_chunks limit read cs
      ≡ (if ltb limit (length (read ++ joined cs)) then none else some (read ++ joined cs))
unfolding read_chunks
read_chunks-eq limit read [] h = rw append-nil (ground arith)
read_chunks-eq limit read (c ∷ cs) h = elim (Bool-cases (ltb limit (length (read ++ c)))) [
  | inl over ↦
      let l : ltb limit (length (read ++ (c ++ joined cs))) ≡ true = ground (
        arith,
        length-append read (c ++ joined cs),
        length-append c (joined cs),
        length-append read c,
      ) in
      rw over (rw l refl)
  | inr within ↦
      rw within (read_chunks-eq limit (read ++ c) cs (ground arith) ∙ rw append_assoc refl)
]

not-false : (b : Bool) → not b ≡ false → b ≡ true
not-false true h = refl
not-false false h = cc

fetched-injective : (f g : Fetched) → fetched f ≡ fetched g → f ≡ g
fetched-injective f g e = ground arith

module _ (sha256 : Bytes → Bytes) (b64decode : List ℕ → Option Bytes)
    (check : Classified → Bytes → Check) where
  -- What holds of a version whose outcome is still open when it has been read.
  pub record IsVerified (kind : Classified) (listed : ℕ) (h : Head) (bytes : Bytes) (f : Fetched)
      : Type 0 where
    pub conforming : is_problem (stored_checksum b64decode h) ≡ false
    pub whole : length bytes ≡ size_or listed h.content_length
    pub listed_within : (limit : ℕ) → kind_limit kind ≡ some limit → listed ≤ limit
    pub within : (limit : ℕ) → kind_limit kind ≡ some limit → length bytes ≤ limit
    pub matches :
        (d : Bytes) → stored_checksum b64decode h ≡ full d → same_text (sha256 bytes) d ≡ true
    pub recorded_digest : f.sha256 ≡ some (sha256 bytes)
    pub content : (f.content ≡ none) ⊎ ((f.content ≡ some bytes) × (check kind bytes ≡ passes))

  hashed-status :
      (f g : Fetched) (limit : Option ℕ) (body : Body)
      → f.status ≡ some non_conforming
      → hash_non_conforming sha256 b64decode check f limit body ≡ fetched g
      → g.status ≡ some non_conforming
  unfolding hash_non_conforming
  hashed-status f g none body h e = ground arith
  hashed-status f g (some limit) unreadable h e = ground arith
  hashed-status f g (some limit) checksum_error h e = ground arith
  hashed-status f g (some limit) (chunks cs) h e = elim (Option-cases (read_chunks limit [] cs)) [
    | inl none_read ↦ ground arith
    | inr (bytes, some_read) ↦ ground arith
  ]

  abbrev Open : Fetched → Fetched → Bytes → Classified → Type 0
  Open f g bytes kind =
      (g.sha256 ≡ f.sha256)
      × (g.size ≡ f.size)
      × ((g.content ≡ none) ⊎ ((g.content ≡ some bytes) × (check kind bytes ≡ passes)))

  checked-Open :
      (f : Fetched) (bytes : Bytes) (kind : Classified) (c : Check)
      → check kind bytes ≡ c
      → (checked sha256 b64decode check f bytes c).status ≡ none
      → Open f (checked sha256 b64decode check f bytes c) bytes kind
  unfolding checked
  checked-Open f bytes kind passes e h = (refl, refl, inr (refl, e))
  checked-Open f bytes kind refused e h = cc
  checked-Open f bytes kind over_limit e h = cc

  by_kind-Open :
      (f : Fetched) (bytes : Bytes) (kind : Classified)
      → f.content ≡ none
      → (by_kind sha256 b64decode check f bytes kind).status ≡ none
      → Open f (by_kind sha256 b64decode check f bytes kind) bytes kind
  unfolding by_kind
  by_kind-Open f bytes (decision_log s) clear h = checked-Open f bytes (decision_log s) _ refl h
  by_kind-Open f bytes decision_log_sidecar clear h = cc
  by_kind-Open f bytes pentest_evidence clear h = checked-Open f bytes pentest_evidence _ refl h
  by_kind-Open f bytes (evidence_document d) clear h = (refl, refl, inl clear)
  by_kind-Open f bytes (unmapped why) clear h = (refl, refl, inl clear)

  -- what `held_to` has compared where it leaves the outcome open
  held_to-Open :
      (f : Fetched) (bytes : Bytes)
      → f.content ≡ none
      → (held_to sha256 b64decode check f bytes).status ≡ none
      → (length bytes ≡ f.size)
        × ((f.composite_checksum ≡ none) → differs f.sha256 (sha256 bytes) ≡ false)
        × Open
            (record f { sha256 = some (sha256 bytes) })
            (held_to sha256 b64decode check f bytes)
            bytes
            f.kind
  unfolding held_to
  held_to-Open f bytes clear h =
      elim (Bool-cases (
        (not (is_some f.composite_checksum) && differs f.sha256 (sha256 bytes))
        || not (length bytes == f.size))) [
          | inl bad ↦ let k : some non_conforming ≡ none = rw bad at h in cc
          | inr good ↦
              let o =
                by_kind-Open (record f { sha256 = some (sha256 bytes) }) bytes f.kind clear
                  (rw good at h) in
              (ground arith, λ full. ground arith, rw good o)
        ]

  -- The body was read whole, within the limit, and left the outcome open.
  record IsRead (f : Fetched) (limit : ℕ) (body : Body) (g : Fetched) : Type 0 where
    bytes : Bytes
    pieces : List Bytes
    body_is : body ≡ chunks pieces
    bytes_are : joined pieces ≡ bytes
    within : length bytes ≤ limit
    held : held_to sha256 b64decode check f bytes ≡ g

  read_body-open :
      (f : Fetched) (limit : ℕ) (body : Body) (g : Fetched)
      → read_body sha256 b64decode check f limit body ≡ fetched g
      → g.status ≡ none
      → IsRead f limit body g
  unfolding read_body body_read
  read_body-open f limit unreadable g e h = cc
  read_body-open f limit checksum_error g e h =
      let k : settled non_conforming f ≡ g = ground arith in
      let m : some non_conforming ≡ none = ap (λ (x : Fetched). x.status) k ∙ h in cc
  read_body-open f limit (chunks cs) g e h = elim (Bool-cases (ltb limit (length (joined cs)))) [
    | inl over ↦
        let r : read_chunks limit [] cs ≡ none =
          read_chunks-eq limit [] cs (omega arith) ∙ rw over refl in
        let k : settled too_large f ≡ g = fetched-injective _ _ (rw r at e) in
        let m : some too_large ≡ none = ap (λ (x : Fetched). x.status) k ∙ h in cc
    | inr fits ↦
        let r : read_chunks limit [] cs ≡ some (joined cs) =
          read_chunks-eq limit [] cs (omega arith) ∙ rw fits refl in
        record {
          bytes = joined cs;
          pieces = cs;
          body_is = refl;
          bytes_are = refl;
          within = ground arith;
          held = fetched-injective _ _ (rw r at e);
        }
  ]

  within_limit-open :
      (f : Fetched) (listed : ℕ) (limit : Option ℕ) (body : Body) (g : Fetched)
      → within_limit sha256 b64decode check f listed limit body ≡ fetched g
      → g.status ≡ none
      → (n : ℕ) × (limit ≡ some n) × (listed ≤ n) × IsRead f n body g
  unfolding within_limit
  within_limit-open f listed none body g e h =
      let k : settled recorded f ≡ g = fetched-injective _ _ e in
      let m : some recorded ≡ none = ap (λ (x : Fetched). x.status) k ∙ h in cc
  within_limit-open f listed (some n) body g e h =
      elim (Bool-cases (ltb n (max_of f.size listed))) [
        | inl over ↦
            let k : settled too_large f ≡ g = fetched-injective _ _ (rw over at e) in
            let m : some too_large ≡ none = ap (λ (x : Fetched). x.status) k ∙ h in cc
        | inr fits ↦ (n, refl, ground arith, read_body-open f n body g (rw fits at e) h)
      ]

  -- the `Fetched` that the answer of `HeadObject` gives
  abbrev headed : Classified → ℕ → Head → Fetched
  headed kind listed h =
      let c = stored_checksum b64decode h in
      record {
        kind = kind;
        size = size_or listed h.content_length;
        sha256 = full_of c;
        composite_checksum = composite_of c;
        status = none;
        content = none;
      }

  verified :
      (kind : Classified) (listed : ℕ) (h : Head) (body : Body) (f : Fetched)
      → is_problem (stored_checksum b64decode h) ≡ false
      → within_limit sha256 b64decode check (headed kind listed h) listed (kind_limit kind) body
        ≡ fetched f
      → f.status ≡ none
      → (cs : List Bytes) × (body ≡ chunks cs) × IsVerified kind listed h (joined cs) f
  verified kind listed h body f good e undecided =
      let (n, limit, listed_ok, r) =
        within_limit-open (headed kind listed h) listed (kind_limit kind) body f e undecided in
      let o =
        held_to-Open (headed kind listed h) r.bytes refl
          (ap (λ (x : Fetched). x.status) r.held ∙ undecided) in
      (
        r.pieces,
        r.body_is,
        rw r.bytes_are (record {
          conforming = good;
          whole = o.0;
          listed_within = λ m q. let k : some n ≡ some m = sym limit ∙ q in ground arith;
          within = λ m q. let k : some n ≡ some m = sym limit ∙ q in ground (arith, r.within);
          matches = λ d q. let z = o.1 (rw q refl) in not-false _ (rw q at z);
          recorded_digest = ap (λ (x : Fetched). x.sha256) (sym r.held) ∙ o.2.0;
          content =
              subst
                (λ (g : Fetched).
                  (g.content ≡ none) ⊎ ((g.content ≡ some r.bytes) × (check kind r.bytes ≡ passes)))
                r.held o.2.2;
        }),
      )

  -- A version that is read and whose outcome is left to its import: its stored SHA-256 checksum is well
  -- formed; its body was read whole, has the stored size, and is within the limit of its kind, as its
  -- listed size is; a full-object checksum is the SHA-256 of the body; the SHA-256 that is recorded is
  -- the body's; and the bytes that are handed on, if any, are the body's and passed the content check.
  pub fetch-verified :
      (kind : Classified) (listed : ℕ) (h : Head) (body : Body) (f : Fetched)
      → fetch_version sha256 b64decode check kind listed (some h) body ≡ fetched f
      → f.status ≡ none
      → (cs : List Bytes) × (body ≡ chunks cs) × IsVerified kind listed h (joined cs) f
  unfolding fetch_version with_head
  fetch-verified kind listed h body f e undecided =
      elim (Bool-cases (is_problem (stored_checksum b64decode h))) [
        | inl bad ↦
            let k = hashed-status _ f (kind_limit kind) body refl (rw bad at e) in
            let m : some non_conforming ≡ none = sym k ∙ undecided in cc
        | inr good ↦ verified kind listed h body f good (rw good at e) undecided
      ]
