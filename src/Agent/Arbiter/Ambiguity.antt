-- ===== src/Agent/Arbiter/Ambiguity.antt =====
-- When a message is ambiguous.
use ding_ding_schedule.Prelude.{
  ℕ, ◌≤◌, ◌<◌, ◌≡◌, ◌≢◌, ◌↔◌, refl, sym, ap, ◌∙◌, subst, Bool, true, false, ◌||◌, ◌⊎◌, inl, inr,
  Option, none, some, List, [], ◌∷◌, ltb, any, length, arith, Bool-cases, Option-cases, eq_of_some,
  eq_iff,
}
use mathlib.Core.List.{Memᴰ}
use ding_ding_schedule.Agent.Arbiter.{
  OperationCandidate, operation_candidate_rank, candidate_identity, Identity, same_identity,
  put_identity, Tally, above, level, is_unknown, count_candidate, count_candidates,
  ambiguous_operation_candidates,
}

abbrev pub Known : OperationCandidate → Type 0
Known c = is_unknown c.draft.act ≡ false

same_refl : (i : Identity) → same_identity i i ≡ true
same_refl (a, b) = ground (arith, (eq_iff a a).1 refl, (eq_iff b b).1 refl)

same_eq : (i j : Identity) → same_identity i j ≡ true → i ≡ j
same_eq (a, b) (c, d) h =
    let first : a ≡ c = (eq_iff a c).0 (ground arith) in
    let second : b ≡ d = (eq_iff b d).0 (ground arith) in cc

abbrev Reaches : OperationCandidate → Option ℕ → Type 0
Reaches c none = ⊥
Reaches c (some top) = operation_candidate_rank c ≤ top

abbrev Distinct : List Identity → Type 0
Distinct [] = Unit
Distinct (i ∷ is) = (any (same_identity i) is ≡ false) × Distinct is

-- The tally of the candidates of `P`: the highest rank, and the identities that have it.
record Counted (P : OperationCandidate → Type 0) (t : Tally) : Type 0 where
  bounded : (c : OperationCandidate) → P c → Known c → Reaches c t.0
  complete :
      (c : OperationCandidate)
      → P c
      → Known c
      → t.0 ≡ some (operation_candidate_rank c)
      → any (same_identity (candidate_identity c)) t.1 ≡ true
  sound :
      (i : Identity)
      → any (same_identity i) t.1 ≡ true
      → (c : OperationCandidate) × P c
        × Known c
        × (t.0 ≡ some (operation_candidate_rank c))
        × (same_identity i (candidate_identity c) ≡ true)
  attained :
      (r : ℕ)
      → t.0 ≡ some r
      → (c : OperationCandidate) × P c × Known c × (operation_candidate_rank c ≡ r)
  distinct : Distinct t.1

Counted-map :
    (P Q : OperationCandidate → Type 0) (t : Tally)
    → ((c : OperationCandidate) → P c → Q c)
    → ((c : OperationCandidate) → Q c → P c)
    → Counted P t
    → Counted Q t
Counted-map P Q t f g h = record {
  bounded = λ c q. h.bounded c (g c q);
  complete = λ c q. h.complete c (g c q);
  sound = λ i m. let (c, p, k, r, e) = h.sound i m in (c, f c p, k, r, e);
  attained = λ r e. let (c, p, k, same) = h.attained r e in (c, f c p, k, same);
  distinct = h.distinct;
}

put-keeps :
    (i j : Identity) (is : List Identity)
    → any (same_identity j) is ≡ true
    → any (same_identity j) (put_identity i is) ≡ true
unfolding put_identity
put-keeps i j is h = ground arith

put-has : (i : Identity) (is : List Identity) → any (same_identity i) (put_identity i is) ≡ true
unfolding put_identity
put-has i is = ground (arith, same_refl i)

put-from :
    (i j : Identity) (is : List Identity)
    → any (same_identity j) (put_identity i is) ≡ true
    → (same_identity j i ≡ true) ⊎ (any (same_identity j) is ≡ true)
unfolding put_identity
put-from i j is h = ground arith

put-Distinct : (i : Identity) (is : List Identity) → Distinct is → Distinct (put_identity i is)
unfolding put_identity
put-Distinct i is h = elim (Bool-cases (any (same_identity i) is)) [
  | inl e ↦ rw e h
  | inr e ↦ rw e (e, h)
]

only : (b : Bool) → b ≡ true → (b || false) ≡ true
only b e = rw e refl

alone : (b : Bool) → (b || false) ≡ true → b ≡ true
alone true e = refl
alone false e = e

module _ (P : OperationCandidate → Type 0) (d : OperationCandidate) where
  abbrev More : OperationCandidate → Type 0
  More c = (d ≡ c) ⊎ P c

  same_act-Known : (c : OperationCandidate) → d ≡ c → Known c → Known d
  same_act-Known c e k = ap (λ x. is_unknown x.draft.act) e ∙ k

  skip-Counted : (t : Tally) → is_unknown d.draft.act ≡ true → Counted P t → Counted More t
  skip-Counted t unknown h = record {
    bounded = λ c m k. elim m [ inl e ↦ cc (same_act-Known c e k) | inr p ↦ h.bounded c p k ];
    complete =
        λ c m k at. elim m [ inl e ↦ cc (same_act-Known c e k) | inr p ↦ h.complete c p k at ];
    sound = λ i m. let (c, p, k, r, e) = h.sound i m in (c, inr p, k, r, e);
    attained = λ r e. let (c, p, k, same) = h.attained r e in (c, inr p, k, same);
    distinct = h.distinct;
  }

  below :
      (c : OperationCandidate) (o : Option ℕ)
      → above (operation_candidate_rank d) o ≡ true
      → Reaches c o
      → operation_candidate_rank c < operation_candidate_rank d
  below c none h r = absurd r
  below c (some top) h r = ground arith

  raise-Counted :
      (t : Tally)
      → Known d
      → above (operation_candidate_rank d) t.0 ≡ true
      → Counted P t
      → Counted More (some (operation_candidate_rank d), candidate_identity d ∷ [])
  raise-Counted t known higher h = record {
    bounded = λ c m k. elim m [
      | inl e ↦ subst (λ x. operation_candidate_rank x ≤ operation_candidate_rank d) e (omega arith)
      | inr p ↦ let b = below c t.0 higher (h.bounded c p k) in omega arith
    ];
    complete = λ c m k at. elim m [
      | inl e ↦
          subst (λ x. any (same_identity (candidate_identity x)) (candidate_identity d ∷ []) ≡ true)
            e (only _ (same_refl (candidate_identity d)))
      | inr p ↦
          let b = below c t.0 higher (h.bounded c p k) in absurd (omega (arith, eq_of_some at))
    ];
    sound = λ i m. (d, inl refl, known, refl, alone _ m);
    attained = λ r e. (d, inl refl, known, eq_of_some e);
    distinct = (refl, tt);
  }

  level_eq :
      (o : Option ℕ)
      → level (operation_candidate_rank d) o ≡ true
      → o ≡ some (operation_candidate_rank d)
  level_eq none h = cc
  level_eq (some top) h = ap some (ground arith)

  at_least :
      (c : OperationCandidate) (o : Option ℕ)
      → o ≡ some (operation_candidate_rank d)
      → Reaches c o
      → operation_candidate_rank c ≤ operation_candidate_rank d
  at_least c none e r = absurd r
  at_least c (some top) e r = omega (arith, eq_of_some e)

  reaches :
      (c : OperationCandidate) (o : Option ℕ) (r : ℕ)
      → o ≡ some r
      → operation_candidate_rank c ≤ r
      → Reaches c o
  reaches c none r e h = cc
  reaches c (some top) r e h = omega (arith, eq_of_some e)

  join-Counted :
      (t : Tally)
      → Known d
      → level (operation_candidate_rank d) t.0 ≡ true
      → Counted P t
      → Counted More (t.0, put_identity (candidate_identity d) t.1)
  join-Counted t known same h =
      let top = level_eq t.0 same in
      record {
        bounded = λ c m k. elim m [
          | inl e ↦
              reaches c t.0 (operation_candidate_rank d) top (
                subst (λ x. operation_candidate_rank x ≤ operation_candidate_rank d) e
                  (omega arith))
          | inr p ↦ h.bounded c p k
        ];
        complete = λ c m k at. elim m [
          | inl e ↦
              subst
                (λ x.
                  any (same_identity (candidate_identity x))
                    (put_identity (candidate_identity d) t.1)
                  ≡ true)
                e (put-has (candidate_identity d) t.1)
          | inr p ↦
              put-keeps (candidate_identity d) (candidate_identity c) t.1 (h.complete c p k at)
        ];
        sound = λ i m. elim (put-from (candidate_identity d) i t.1 m) [
          | inl e ↦ (d, inl refl, known, top, e)
          | inr old ↦ let (c, p, k, r, e) = h.sound i old in (c, inr p, k, r, e)
        ];
        attained = λ r e. (d, inl refl, known, eq_of_some (sym top ∙ e));
        distinct = put-Distinct (candidate_identity d) t.1 h.distinct;
      }

  under :
      (o : Option ℕ)
      → above (operation_candidate_rank d) o ≡ false
      → level (operation_candidate_rank d) o ≡ false
      → (r : ℕ) × (o ≡ some r) × (operation_candidate_rank d < r)
  under none a l = cc
  under (some top) a l = (top, refl, ground arith)

  pass-Counted :
      (t : Tally)
      → above (operation_candidate_rank d) t.0 ≡ false
      → level (operation_candidate_rank d) t.0 ≡ false
      → Counted P t
      → Counted More t
  pass-Counted t a l h =
      let (r, at_r, less) = under t.0 a l in
      record {
        bounded = λ c m k. elim m [
          | inl e ↦
              reaches c t.0 r at_r (subst (λ x. operation_candidate_rank x ≤ r) e (omega arith))
          | inr p ↦ h.bounded c p k
        ];
        complete = λ c m k at. elim m [
          | inl e ↦
              absurd (omega (arith, ap operation_candidate_rank e, eq_of_some (sym at_r ∙ at)))
          | inr p ↦ h.complete c p k at
        ];
        sound = λ i m. let (c, p, k, s, e) = h.sound i m in (c, inr p, k, s, e);
        attained = λ s e. let (c, p, k, same) = h.attained s e in (c, inr p, k, same);
        distinct = h.distinct;
      }

  count-Counted : (t : Tally) → Counted P t → Counted More (count_candidate d t)
  unfolding count_candidate
  count-Counted t h = elim (Bool-cases (is_unknown d.draft.act)) [
    | inl u ↦ rw u (skip-Counted t u h)
    | inr u ↦ elim (Bool-cases (above (operation_candidate_rank d) t.0)) [
      | inl a ↦ rw (u, a) (raise-Counted t u a h)
      | inr a ↦ elim (Bool-cases (level (operation_candidate_rank d) t.0)) [
        | inl l ↦ rw (u, a, l) (join-Counted t u l h)
        | inr l ↦ rw (u, a, l) (pass-Counted t a l h)
      ]
    ]
  ]

count_all-Counted :
    (cs : List OperationCandidate) (P : OperationCandidate → Type 0) (t : Tally)
    → Counted P t
    → Counted (λ c. Memᴰ c cs ⊎ P c) (count_candidates cs t)
unfolding count_candidates
count_all-Counted [] P t h =
    Counted-map P (λ c. Memᴰ c [] ⊎ P c) t (λ c p. inr p)
      (λ c m. elim m [ inl none_is ↦ elim none_is [ ] | inr p ↦ p ]) h
count_all-Counted (d ∷ cs) P t h =
    Counted-map (λ c. Memᴰ c cs ⊎ ((d ≡ c) ⊎ P c)) (λ c. Memᴰ c (d ∷ cs) ⊎ P c) _
      (λ c m. elim m [
        | inl in_cs ↦ inl (Memᴰ.tail in_cs)
        | inr rest ↦ elim rest [ inl e ↦ inl (Memᴰ.head (sym e)) | inr p ↦ inr p ]
      ])
      (λ c m. elim m [
        | inl in_all ↦ elim in_all [ Memᴰ.head e ↦ inr (inl (sym e)) | Memᴰ.tail in_cs ↦ inl in_cs ]
        | inr p ↦ inr (inr p)
      ])
      (count_all-Counted cs (λ c. (d ≡ c) ⊎ P c) (count_candidate d t) (count-Counted P d t h))

reached :
    (c : OperationCandidate) (o : Option ℕ) (r : ℕ)
    → o ≡ some r
    → Reaches c o
    → operation_candidate_rank c ≤ r
reached c none r e h = absurd h
reached c (some top) r e h = omega (arith, eq_of_some e)

-- Two identities in a list without repetition that is long enough, and the other way round.
two_of :
    (is : List Identity)
    → Distinct is
    → ltb 1 (length is) ≡ true
    → (i : Identity) × (j : Identity) × (i ≢ j)
      × (any (same_identity i) is ≡ true)
      × (any (same_identity j) is ≡ true)
two_of [] h long = cc
two_of (i ∷ []) h long = ground arith
two_of (i ∷ j ∷ is) (fresh, h) long =
    (i, j, apart, ground (arith, same_refl i), ground (arith, same_refl j))
  where
    apart : i ≢ j
    apart e =
        cc (subst (λ x. any (same_identity i) (x ∷ is) ≡ true) e (ground (arith, same_refl i)))

of_two :
    (is : List Identity) (i j : Identity)
    → i ≢ j
    → any (same_identity i) is ≡ true
    → any (same_identity j) is ≡ true
    → ltb 1 (length is) ≡ true
of_two [] i j apart hi hj = cc
of_two (x ∷ []) i j apart hi hj =
    absurd (apart (same_eq i x (alone _ hi) ∙ sym (same_eq j x (alone _ hj))))
of_two (x ∷ y ∷ is) i j apart hi hj = ground arith

start-Counted : Counted (λ c. ⊥) (none, [])
start-Counted = record {
  bounded = λ c p. absurd p;
  complete = λ c p. absurd p;
  sound = λ i m. cc;
  attained = λ r e. cc;
  distinct = tt;
}

module _ (cs : List OperationCandidate) where
  -- a candidate with a known act, of the highest rank among those
  abbrev pub TopRanked : OperationCandidate → Type 0
  TopRanked c =
      Memᴰ c cs
      × Known c
      × ((e : OperationCandidate)
          → Memᴰ e cs
          → Known e
          → operation_candidate_rank e ≤ operation_candidate_rank c)

  counted : Counted (λ c. Memᴰ c cs ⊎ ⊥) (count_candidates cs (none, []))
  counted = count_all-Counted cs (λ c. ⊥) (none, []) start-Counted

  pub Torn : Type 0
  Torn =
      (c : OperationCandidate) × (d : OperationCandidate) × TopRanked c
      × TopRanked d
      × (candidate_identity c ≢ candidate_identity d)

  strip : (c : OperationCandidate) → Memᴰ c cs ⊎ ⊥ → Memᴰ c cs
  strip c (inl m) = m
  strip c (inr none_is) = absurd none_is

  top_is :
      (c : OperationCandidate)
      → Memᴰ c cs ⊎ ⊥
      → Known c
      → (count_candidates cs (none, [])).0 ≡ some (operation_candidate_rank c)
      → TopRanked c
  top_is c m k at = (
    strip c m,
    k,
    λ e n known.
        reached e (count_candidates cs (none, [])).0 (operation_candidate_rank c) at
          (counted.bounded e (inl n) known),
  )

  is_top :
      (c : OperationCandidate)
      → TopRanked c
      → (count_candidates cs (none, [])).0 ≡ some (operation_candidate_rank c)
  is_top c (m, k, highest) = elim (Option-cases (count_candidates cs (none, [])).0) [
    | inl e ↦ absurd (subst (Reaches c) e (counted.bounded c (inl m) k))
    | inr (r, e) ↦
        let (d, n, known, same) = counted.attained r e in
        let low = reached c (count_candidates cs (none, [])).0 r e (counted.bounded c (inl m) k) in
        let high = highest d (strip d n) known in e ∙ ap some (omega arith)
  ]

  -- A message is ambiguous exactly when two of its candidates with a known act have the highest rank
  -- among those, and differ in their act or in their operation.
  pub ambiguous_operation_candidates_iff : (ambiguous_operation_candidates cs ≡ true) ↔ Torn
  unfolding ambiguous_operation_candidates Torn
  ambiguous_operation_candidates_iff = (
    λ long.
        let (i, j, apart, at_i, at_j) =
          two_of (count_candidates cs (none, [])).1 counted.distinct long in
        let (c, m, k, r, e) = counted.sound i at_i in
        let (d, n, l, s, f) = counted.sound j at_j in
        (
          c,
          d,
          top_is c m k r,
          top_is d n l s,
          λ same. apart (
              same_eq i (candidate_identity c) e ∙ same ∙ sym (same_eq j (candidate_identity d) f)),
        ),
    λ (c, d, top_c, top_d, differ).
        of_two (count_candidates cs (none, [])).1 (candidate_identity c) (candidate_identity d)
          differ (counted.complete c (inl top_c.0) top_c.1 (is_top c top_c))
          (counted.complete d (inl top_d.0) top_d.1 (is_top d top_d)),
  )
