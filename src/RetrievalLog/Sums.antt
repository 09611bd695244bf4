-- ===== src/RetrievalLog/Sums.antt =====
-- The summary of a longer log is the sum of the summaries of its parts.
use dinomem.Prelude.{
  ℕ, ◌+◌, ◌≡◌, refl, ap, sym, ◌∙◌, inl, inr, Bool, true, false, ◌||◌, not, some, List, [], ◌∷◌,
  ◌++◌, arith, Bool-cases, if◌then◌else◌, length-append,
}
use dinomem.Prelude.Text.{Text, text_eq, text_eq_iff}
use dinomem.RetrievalLog.{
  Logged, Counts, no_counts, PerTool, Summary, one_if, count_call, add_call, summarize_from,
  summarize_records, get_counts, add_counts, sums_of, has_tool, others_of, merge_summaries,
}

-- What the calls of one tool come to.
unfoldable pub counts_of : Text → List Logged → Counts
counts_of tool [] = no_counts
counts_of tool (r ∷ records) =
    let rest = counts_of tool records in if text_eq r.tool tool then count_call r rest else rest

-- Two counts are the same number by number.
abbrev pub Same : Counts → Counts → Type 0
Same s t = (s.calls ≡ t.calls) × (s.fallbacks ≡ t.fallbacks) × (s.empty_results ≡ t.empty_results)

get-add_call :
    (tool : Text) (r : Logged) (per_tool : PerTool)
    → get_counts tool (add_call r per_tool) ≡ (
        if text_eq r.tool tool
        then count_call r (get_counts tool per_tool)
        else get_counts tool per_tool)
unfolding get_counts add_call
get-add_call tool r [] = refl
get-add_call tool r ((k, t) ∷ per_tool) = elim (Bool-cases (text_eq k r.tool)) [
  | inl e ↦ rw (e, (text_eq_iff k r.tool).0 e) (by_test (text_eq r.tool tool))
  | inr n ↦ rw n (elim (Bool-cases (text_eq k tool)) [
    | inl y ↦ rw (y, other n ((text_eq_iff k tool).0 y)) refl
    | inr d ↦ rw d (get-add_call tool r per_tool)
  ])
]
  where
    by_test :
        (b : Bool)
        → (if b then count_call r t else get_counts tool per_tool) ≡ (
            if b
            then count_call r (if b then t else get_counts tool per_tool)
            else if b
            then t
            else get_counts tool per_tool)
    by_test true = refl
    by_test false = refl

    other : text_eq k r.tool ≡ false → k ≡ tool → text_eq r.tool tool ≡ false
    other n y = elim (Bool-cases (text_eq r.tool tool)) [
      | inl e ↦ absurd (cc (n, (text_eq_iff k r.tool).1 (y ∙ sym ((text_eq_iff r.tool tool).0 e))))
      | inr d ↦ d
    ]

get-summarize_from :
    (tool : Text) (records : List Logged) (per_tool : PerTool)
    → Same
        (get_counts tool (summarize_from records per_tool))
        (add_counts (get_counts tool per_tool) (counts_of tool records))
unfolding summarize_from counts_of
get-summarize_from tool [] per_tool = (omega arith, omega arith, omega arith)
get-summarize_from tool (r ∷ records) per_tool =
    step (text_eq r.tool tool) (get_counts tool (summarize_from records (add_call r per_tool)))
      (get_counts tool (add_call r per_tool)) (get_counts tool per_tool) (counts_of tool records)
      (get-add_call tool r per_tool) (get-summarize_from tool records (add_call r per_tool))
  where
    step :
        (b : Bool) (all added before rest : Counts)
        → added ≡ (if b then count_call r before else before)
        → Same all (add_counts added rest)
        → Same all (add_counts before (if b then count_call r rest else rest))
    step true all added before rest e h =
        unfold count_call in
        (
          omega (arith, h.0, ap (λ (x : Counts). x.calls) e),
          sum_of _ _ before.fallbacks rest.fallbacks (one_if r.fallback_used) h.1
              (ap (λ (x : Counts). x.fallbacks) e),
          sum_of _ _ before.empty_results rest.empty_results (one_if (not r.has_results)) h.2
              (ap (λ (x : Counts). x.empty_results) e),
        )
      where
        sum_of : (a x b c n : ℕ) → a ≡ x + c → x ≡ b + n → a ≡ b + (c + n)
        sum_of a x b c n p q = omega arith
    step false all added before rest e h = rw (sym e) h

counts_of-append :
    (tool : Text) (xs ys : List Logged)
    → Same (counts_of tool (xs ++ ys)) (add_counts (counts_of tool xs) (counts_of tool ys))
unfolding counts_of count_call
counts_of-append tool [] ys = (omega arith, omega arith, omega arith)
counts_of-append tool (r ∷ xs) ys = elim (Bool-cases (text_eq r.tool tool)) [
  | inl e ↦ rw e (
      let (a, b, c) = counts_of-append tool xs ys in
      (omega (arith, a), omega (arith, b), omega (arith, c)))
  | inr n ↦ rw n (counts_of-append tool xs ys)
]

get-append :
    (tool : Text) (a b : PerTool)
    → get_counts tool (a ++ b) ≡ (if has_tool tool a then get_counts tool a else get_counts tool b)
unfolding get_counts has_tool
get-append tool [] b = refl
get-append tool ((k, t) ∷ a) b = elim (Bool-cases (text_eq k tool)) [
  | inl e ↦ rw e refl
  | inr n ↦ rw n (get-append tool a b)
]

has-sums_of : (tool : Text) (a b : PerTool) → has_tool tool (sums_of a b) ≡ has_tool tool a
unfolding has_tool sums_of
has-sums_of tool [] b = refl
has-sums_of tool ((k, t) ∷ a) b = ap (λ r. text_eq k tool || r) (has-sums_of tool a b)

get-sums_of :
    (tool : Text) (a b : PerTool)
    → has_tool tool a ≡ true
    → get_counts tool (sums_of a b) ≡ add_counts (get_counts tool a) (get_counts tool b)
unfolding get_counts sums_of has_tool
get-sums_of tool [] b h = absurd (cc h)
get-sums_of tool ((k, t) ∷ a) b h = elim (Bool-cases (text_eq k tool)) [
  | inl e ↦ rw e (ap (λ x. add_counts t (get_counts x b)) ((text_eq_iff k tool).0 e))
  | inr n ↦ rw n (get-sums_of tool a b (rw n at h))
]

get_absent : (tool : Text) (a : PerTool) → has_tool tool a ≡ false → get_counts tool a ≡ no_counts
unfolding get_counts has_tool
get_absent tool [] h = refl
get_absent tool ((k, t) ∷ a) h = elim (Bool-cases (text_eq k tool)) [
  | inl e ↦ absurd (cc (rw e at h))
  | inr n ↦ rw n (get_absent tool a (rw n at h))
]

get-others_of :
    (tool : Text) (a b : PerTool)
    → has_tool tool a ≡ false
    → get_counts tool (others_of a b) ≡ get_counts tool b
unfolding get_counts others_of
get-others_of tool a [] h = refl
get-others_of tool a ((k, t) ∷ b) h = elim (Bool-cases (text_eq k tool)) [
  | inl e ↦ rw (e, ap (λ x. has_tool x a) ((text_eq_iff k tool).0 e) ∙ h) (rw e refl)
  | inr n ↦ elim (Bool-cases (has_tool k a)) [
    | inl y ↦ rw (y, n) (get-others_of tool a b h)
    | inr d ↦ rw (d, n) (get-others_of tool a b h)
  ]
]

get-merge :
    (tool : Text) (a b : PerTool)
    → Same
        (get_counts tool (sums_of a b ++ others_of a b))
        (add_counts (get_counts tool a) (get_counts tool b))
get-merge tool a b = elim (Bool-cases (has_tool tool a)) [
  | inl e ↦
      rw
        (
          get-append tool (sums_of a b) (others_of a b),
          has-sums_of tool a b,
          e,
          get-sums_of tool a b e,
        )
        (refl, refl, refl)
  | inr n ↦
      rw
        (
          get-append tool (sums_of a b) (others_of a b),
          has-sums_of tool a b,
          n,
          get-others_of tool a b n,
          get_absent tool a n,
        )
        (omega arith, omega arith, omega arith)
]

add_Same : (s t u v : Counts) → Same s t → Same u v → Same (add_counts s u) (add_counts t v)
add_Same s t u v (a, b, c) (d, e, f) = (omega arith, omega arith, omega arith)

Same-trans : (s t u : Counts) → Same s t → Same t u → Same s u
Same-trans s t u (a, b, c) (d, e, f) = (a ∙ d, b ∙ e, c ∙ f)

Same-sym : (s t : Counts) → Same s t → Same t s
Same-sym s t (a, b, c) = (sym a, sym b, sym c)

summary_counts :
    (tool : Text) (records : List Logged)
    → Same (get_counts tool (summarize_from records [])) (counts_of tool records)
summary_counts tool records =
    Same-trans _ _ _ (get-summarize_from tool records [])
      (unfold get_counts in (omega arith, omega arith, omega arith))

-- The merged summaries of two logs have the calls, fallbacks and empty results of the summary of both logs, in
-- all and for every tool.
pub merge-summarize_records :
    (tool : Text) (xs ys : List Logged)
    → (merged : Summary) × (merge_summaries
          (some (summarize_records xs))
          (some (summarize_records ys))
        ≡ some merged)
      × (merged.total_calls ≡ (summarize_records (xs ++ ys)).total_calls)
      × Same
          (get_counts tool merged.per_tool)
          (get_counts tool (summarize_records (xs ++ ys)).per_tool)
unfolding merge_summaries summarize_records
merge-summarize_records tool xs ys = (
  _,
  refl,
  sym (length-append xs ys),
  Same-trans _ _ _ (get-merge tool (summarize_from xs []) (summarize_from ys [])) (
      Same-trans _ _ _
        (add_Same _ (counts_of tool xs) _ (counts_of tool ys) (summary_counts tool xs)
          (summary_counts tool ys))
        (Same-trans _ _ _ (Same-sym (counts_of tool (xs ++ ys)) _ (counts_of-append tool xs ys))
          (Same-sym _ _ (summary_counts tool (xs ++ ys))))),
)
