-- ===== src/HotStuff/Certificates.antt =====
-- What MakeQC and VerifyQC accept (internal/hotstuff/hotstuff.go).
use ai_po_w_unified_dag.Prelude.{
  ◌↔◌, ℕ, suc, ◌≤◌, ◌≡◌, refl, ap, sym, ◌∙◌, inl, inr, List, [], ◌∷◌, ◌++◌, true, false, none,
  Bytes, ok, length, lookup, insert_new, keys, keys-append, contains, distinct, distinct-snoc,
  distinct-append_cons, lookup-none-contains, lookup-some-contains, contains-false-lookup, All,
  bytes_eq, nat_eq, Bool-cases, Option-cases, sort_slice, ltb, arith,
}
use ai_po_w_unified_dag.Prelude.Results.{Result-cases}
use mathlib.Core.List.{append-nil, append_assoc}
use ai_po_w_unified_dag.Protocol.{Phase, phase_eq, Vote, Crypto, QuorumCertificate}
use ai_po_w_unified_dag.HotStuff.Validators.{
  ValidatorSet, quorum, verify_vote, off_subject, collect_votes, values, vote_less, certify,
  make_qc, verify_qc,
}

abbrev pub voters : List Vote → List Bytes
voters [] = []
voters (v ∷ vs) = v.voter_id ∷ voters vs

pub length-voters : (vs : List Vote) → length (voters vs) ≡ length vs
length-voters [] = refl
length-voters (v ∷ vs) = ap suc (length-voters vs)

-- The map of MakeQC after it has taken these votes.
abbrev tagged : List Vote → List (Bytes × Vote)
tagged [] = []
tagged (v ∷ vs) = (v.voter_id, v) ∷ tagged vs

keys-tagged : (vs : List Vote) → keys (tagged vs) ≡ voters vs
unfolding keys
keys-tagged [] = refl
keys-tagged (v ∷ vs) = ap (◌∷◌ v.voter_id) (keys-tagged vs)

length-tagged : (vs : List Vote) → length (tagged vs) ≡ length vs
length-tagged [] = refl
length-tagged (v ∷ vs) = ap suc (length-tagged vs)

pub values-tagged : (vs : List Vote) → values (tagged vs) ≡ vs
unfolding values
values-tagged [] = refl
values-tagged (v ∷ vs) = ap (◌∷◌ v) (values-tagged vs)

distinct-step :
    (u : List (Bytes × Vote)) (v : Vote)
    → distinct (keys u) ≡ true
    → contains (keys u) v.voter_id ≡ false
    → distinct (keys (u ++ (v.voter_id, v) ∷ [])) ≡ true
unfolding keys
distinct-step u v d h =
    rw (keys-append u ((v.voter_id, v) ∷ [])) (distinct-snoc (keys u) v.voter_id d h)

module _ ⦃c : Crypto⦄ where
  -- A vote on this subject that VerifyVote accepts.
  abbrev pub IsVoteFor : ValidatorSet → Phase → ℕ → Bytes → Vote → Type 0
  IsVoteFor s phase height hash v =
      (off_subject phase height hash v ≡ false) × (verify_vote s v ≡ ok tt)

  -- What a quorum certificate is: enough votes on one subject, of distinct validators.
  pub record Certifies (s : ValidatorSet) (phase : Phase) (height : ℕ) (hash : Bytes)
      (votes : List Vote) : Type 0 where
    pub each : All (IsVoteFor s phase height hash) votes
    pub one_each : distinct (voters votes) ≡ true
    pub enough : quorum s ≤ length votes

  module _ (s : ValidatorSet) (phase : Phase) (height : ℕ) (hash : Bytes) where
    collect_votes_step :
        (v : Vote) (vs : List Vote) (u : List (Bytes × Vote))
        → IsVoteFor s phase height hash v
        → lookup v.voter_id u ≡ none
        → collect_votes s phase height hash (v ∷ vs) u
          ≡ collect_votes s phase height hash vs (u ++ (v.voter_id, v) ∷ [])
    unfolding collect_votes
    collect_votes_step v vs u h n = rw (h.0, h.1, n, insert_new v.voter_id v u n)

    -- The loop takes votes on the subject from distinct validators, in order.
    collect_votes_complete :
        (vs : List Vote) (u : List (Bytes × Vote))
        → All (IsVoteFor s phase height hash) vs
        → distinct (keys u ++ voters vs) ≡ true
        → collect_votes s phase height hash vs u ≡ ok (u ++ tagged vs)
    unfolding collect_votes keys
    collect_votes_complete [] u h d = ap ok (sym (append-nil u))
    collect_votes_complete (v ∷ vs) u (hv, h) d =
        collect_votes_step v vs u hv (
          contains-false-lookup v.voter_id u
            (distinct-append_cons (keys u) v.voter_id (voters vs) d))
        ∙ (collect_votes_complete vs (u ++ (v.voter_id, v) ∷ []) h (
              rw
                (
                  keys-append u ((v.voter_id, v) ∷ []),
                  append_assoc (keys u) (v.voter_id ∷ []) (voters vs),
                )
                d)
            ∙ ap ok (append_assoc u ((v.voter_id, v) ∷ []) (tagged vs)))

    -- A step that succeeds took a vote on the subject from a new validator.
    collect_votes_inv :
        (v : Vote) (vs : List Vote) (u m : List (Bytes × Vote))
        → collect_votes s phase height hash (v ∷ vs) u ≡ ok m
        → IsVoteFor s phase height hash v × (lookup v.voter_id u ≡ none)
    unfolding collect_votes
    collect_votes_inv v vs u m h = elim (Bool-cases (off_subject phase height hash v)) [
      | inl off ↦ let bad = rw off at h in cc
      | inr on ↦ elim (Result-cases (verify_vote s v)) [
        | inr (e, bad) ↦ let k = rw (on, bad) at h in cc
        | inl (tt, good) ↦ elim (Option-cases (lookup v.voter_id u)) [
          | inl new ↦ ((on, good), new)
          | inr (w, old) ↦ let k = rw (on, good, old) at h in cc
        ]
      ]
    ]

    collected :
        (vs : List Vote) (m : List (Bytes × Vote))
        → All (IsVoteFor s phase height hash) vs
        → distinct (voters vs) ≡ true
        → collect_votes s phase height hash vs [] ≡ ok m
        → m ≡ tagged vs
    unfolding keys
    collected vs m each apart good = cc (collect_votes_complete vs [] each apart)

    collect_votes_sound :
        (vs : List Vote) (u m : List (Bytes × Vote))
        → distinct (keys u) ≡ true
        → collect_votes s phase height hash vs u ≡ ok m
        → All (IsVoteFor s phase height hash) vs × (distinct (keys u ++ voters vs) ≡ true)
    unfolding keys
    collect_votes_sound [] u m d h = (tt, rw (append-nil (keys u)) d)
    collect_votes_sound (v ∷ vs) u m d h =
        let (good, new) = collect_votes_inv v vs u m h in
        let absent : contains (keys u) v.voter_id ≡ false = lookup-none-contains v.voter_id u new in
        let (all, apart) =
          collect_votes_sound vs (u ++ (v.voter_id, v) ∷ []) m (distinct-step u v d absent)
            (sym (collect_votes_step v vs u good new) ∙ h) in
        (
          (good, all),
          rw
              (
                keys-append u ((v.voter_id, v) ∷ []),
                append_assoc (keys u) (v.voter_id ∷ []) (voters vs),
              )
              at apart,
        )

  certify-ok :
      (s : ValidatorSet) (phase : Phase) (height : ℕ) (hash : Bytes) (m : List (Bytes × Vote))
      {qc : QuorumCertificate}
      → certify s phase height hash m ≡ ok qc
      → quorum s ≤ length m
  unfolding certify
  certify-ok s phase height hash m h = ground arith

  certify_enough :
      (s : ValidatorSet) (phase : Phase) (height : ℕ) (hash : Bytes) (votes : List Vote)
      → quorum s ≤ length votes
      → certify s phase height hash (tagged votes)
        ≡ ok (record {
          phase = phase;
          height = height;
          block_hash = hash;
          votes = sort_slice vote_less votes;
        })
  unfolding certify
  certify_enough s phase height hash votes h =
      let few : ltb (length (tagged votes)) (quorum s) ≡ false =
        ground (arith, length-tagged votes) in
      rw (few, values-tagged votes)

  -- A quorum of votes on the subject, of distinct validators, makes a certificate: these votes in
  -- the order of their voters' names.
  pub make_qc_complete :
      (s : ValidatorSet) (phase : Phase) (height : ℕ) (hash : Bytes) (votes : List Vote)
      → Certifies s phase height hash votes
      → make_qc s phase height hash votes
        ≡ ok (record {
          phase = phase;
          height = height;
          block_hash = hash;
          votes = sort_slice vote_less votes;
        })
  unfolding make_qc keys
  make_qc_complete s phase height hash votes k =
      rw (collect_votes_complete s phase height hash votes [] k.each k.one_each, make_qc)
        (certify_enough s phase height hash votes k.enough)

  pub make_qc_sound :
      (s : ValidatorSet) (phase : Phase) (height : ℕ) (hash : Bytes) (votes : List Vote)
      {qc : QuorumCertificate}
      → make_qc s phase height hash votes ≡ ok qc
      → Certifies s phase height hash votes
  unfolding make_qc keys distinct
  make_qc_sound s phase height hash votes h =
      elim (Result-cases (collect_votes s phase height hash votes [])) [
        | inr (e, bad) ↦ let k = rw (bad, make_qc) at h in cc
        | inl (m, good) ↦
            let (each, apart) = collect_votes_sound s phase height hash votes [] m refl good in
            let same : m ≡ tagged votes = collected s phase height hash votes m each apart good in
            record {
              each = each;
              one_each = apart;
              enough = omega (
                arith,
                certify-ok s phase height hash m (rw (good, make_qc) at h),
                ap length same,
                length-tagged votes,
              );
            }
      ]

  -- A vote that VerifyVote accepts is from a validator of the set.
  pub verify_vote-ok-known :
      (s : ValidatorSet) (v : Vote)
      → verify_vote s v ≡ ok tt
      → contains (keys s.keys) v.voter_id ≡ true
  unfolding verify_vote
  verify_vote-ok-known s v h = elim (Option-cases (lookup v.voter_id s.keys)) [
    | inl missing ↦ let k = rw (missing, verify_vote) at h in cc
    | inr (key, found) ↦ lookup-some-contains v.voter_id s.keys found
  ]

  -- VerifyQC accepts a certificate exactly when its votes are a quorum for its subject.
  pub verify_qc-ok_iff :
      (s : ValidatorSet) (qc : QuorumCertificate)
      → (verify_qc s qc ≡ ok tt) ↔ Certifies s qc.phase qc.height qc.block_hash qc.votes
  unfolding verify_qc
  verify_qc-ok_iff s qc = (
    λ h. elim (Result-cases (make_qc s qc.phase qc.height qc.block_hash qc.votes)) [
      | inr (e, bad) ↦ let k = rw (bad, verify_qc) at h in cc
      | inl (q, good) ↦ make_qc_sound s qc.phase qc.height qc.block_hash qc.votes good
    ],
    λ k. rw (make_qc_complete s qc.phase qc.height qc.block_hash qc.votes k, verify_qc),
  )
