-- ===== src/FreeSpace/Search.antt =====
-- `FindPageWithSpace` against the space that the pages have.
use storage_prototype.Common.{
  ℕ, ◌+◌, ◌≤◌, ◌<◌, ◌≡◌, ◌≢◌, ◌⊎◌, inl, inr, refl, arith, min, true, ◌||◌, ◌==◌, List, [], ◌∷◌,
  length, get_or, eq-or-ne, subst, ==_self, ◌++◌, ap, ◌∙◌, Bool-cases,
}
use storage_prototype.FreeSpace.{
  FreeSpaceMap, find_page, find_page_with_space, bytes_to_category, is_allocated, invalid_page_id,
}
use storage_prototype.FreeSpace.Category.{
  category_enough, category_zero, category_positive, bytes_to_category_order,
}

-- The map says for each allocated page the category of the space that `avail` gives it.
pub record Reflects (fsm : FreeSpaceMap) (avail : ℕ → ℕ) : Type 0 where
  pub tracked : (p : ℕ) → is_allocated fsm.allocated_pages p ≡ true → p < length fsm.fsm_cache
  pub category :
      (p : ℕ)
      → is_allocated fsm.allocated_pages p ≡ true
      → get_or fsm.fsm_cache p 0 ≡ bytes_to_category (avail p)

find_page_hit :
    (cache : List ℕ) (min_category p : ℕ) (ps : List ℕ)
    → p < length cache
    → min_category ≤ get_or cache p 0
    → 0 < get_or cache p 0
    → find_page cache min_category (p ∷ ps) ≡ p
unfolding find_page
find_page_hit cache c p ps h h' h'' = ground arith

find_page_skip :
    (cache : List ℕ) (min_category p : ℕ) (ps : List ℕ)
    → (get_or cache p 0 < min_category) ⊎ (get_or cache p 0 ≡ 0)
    → find_page cache min_category (p ∷ ps) ≡ find_page cache min_category ps
unfolding find_page
find_page_skip cache c p ps h = ground arith

-- A page that a search for the category `min_category` passes over.
abbrev Unfit : List ℕ → ℕ → ℕ → Type 0
Unfit cache min_category q = (get_or cache q 0 < min_category) ⊎ (get_or cache q 0 ≡ 0)

-- The page `p` is the first of `ps` that is not passed over.
pub record FirstHit (cache : List ℕ) (min_category : ℕ) (ps : List ℕ) (p : ℕ) : Type 0 where
  pub before : List ℕ
  pub after : List ℕ
  pub split : ps ≡ before ++ (p ∷ after)
  pub earlier : (q : ℕ) → is_allocated before q ≡ true → Unfit cache min_category q
  pub allocated : is_allocated ps p ≡ true
  pub enough : min_category ≤ get_or cache p 0
  pub positive : 0 < get_or cache p 0

page_cases :
    (cache : List ℕ) (c p : ℕ) → ((c ≤ get_or cache p 0) × (0 < get_or cache p 0)) ⊎ Unfit cache c p
page_cases cache c p = ground arith

-- A property of the head and of the pages of the tail holds for the pages of the list.
each_page :
    {P : ℕ → Type 0} (p : ℕ) (ps : List ℕ)
    → P p
    → ((q : ℕ) → is_allocated ps q ≡ true → P q)
    → (q : ℕ) → is_allocated (p ∷ ps) q ≡ true
    → P q
unfolding is_allocated
each_page {P = P} p ps here there q h = elim (eq-or-ne p q) [
  | inl same ↦ subst P same here
  | inr ne ↦ there q (later p q ps ne h)
]
  where
    later :
        (p q : ℕ) (ps : List ℕ)
        → p ≢ q
        → ((p == q) || is_allocated ps q) ≡ true
        → is_allocated ps q ≡ true
    later p q ps ne h = ground arith

FirstHit-head :
    (cache : List ℕ) (c p : ℕ) (ps : List ℕ)
    → c ≤ get_or cache p 0
    → 0 < get_or cache p 0
    → FirstHit cache c (p ∷ ps) p
unfolding is_allocated
FirstHit-head cache c p ps h h' = record {
  before = [];
  after = ps;
  split = refl;
  earlier = λ q e. absurd (ground arith);
  allocated = rw (==_self p) refl;
  enough = h;
  positive = h';
}

FirstHit-tail :
    (cache : List ℕ) (c p r : ℕ) (ps : List ℕ)
    → Unfit cache c p
    → FirstHit cache c ps r
    → FirstHit cache c (p ∷ ps) r
FirstHit-tail cache c p r ps unfit f = record {
  before = p ∷ f.before;
  after = f.after;
  split = ap (λ (l : List ℕ). p ∷ l) f.split;
  earlier = each_page {P = Unfit cache c} p f.before unfit f.earlier;
  allocated = in_tail f.allocated;
  enough = f.enough;
  positive = f.positive;
}
  where
    in_tail : is_allocated ps r ≡ true → is_allocated (p ∷ ps) r ≡ true
    in_tail e = unfold is_allocated in ground arith

-- A page of the first list is one of both lists.
is_allocated-append :
    (ps qs : List ℕ) (q : ℕ) → is_allocated ps q ≡ true → is_allocated (ps ++ qs) q ≡ true
unfolding is_allocated
is_allocated-append [] qs q h = absurd (ground arith)
is_allocated-append (p ∷ ps) qs q h = elim (Bool-cases (is_allocated ps q)) [
  | inl e ↦ rw (is_allocated-append ps qs q e) (ground arith)
  | inr e ↦ ground arith
]

-- What a search finds, for the pages `ps`.
pub find_page_lem :
    (cache : List ℕ) (min_category : ℕ) (ps : List ℕ)
    → ((p : ℕ) → is_allocated ps p ≡ true → p < length cache)
    → let p = find_page cache min_category ps in
      FirstHit cache min_category ps p
      ⊎ ((p ≡ invalid_page_id) × ((q : ℕ) → is_allocated ps q ≡ true → Unfit cache min_category q))
unfolding is_allocated
find_page_lem cache c [] tracked = inr (unfold find_page in refl, λ q h. absurd (ground arith))
find_page_lem cache c (p ∷ ps) tracked = elim (page_cases cache c p) [
  | inl (h, h') ↦ inl (
      rw (find_page_hit cache c p ps (tracked p (rw (==_self p) refl)) h h')
        (FirstHit-head cache c p ps h h'))
  | inr unfit ↦
      rw (find_page_skip cache c p ps unfit)
        (elim (find_page_lem cache c ps (λ q h. tracked q (ground arith))) [
          | inl f ↦ inl (FirstHit-tail cache c p _ ps unfit f)
          | inr (e, f) ↦ inr (e, each_page {P = Unfit cache c} p ps unfit f)
        ])
]

-- A page with less than the space required, or with less than the 33 bytes of category 1.
abbrev pub Lacks : (ℕ → ℕ) → ℕ → ℕ → Type 0
Lacks avail required q = (avail q < required) ⊎ (avail q < 33)

-- The page `p` is allocated, serves the request, and every page before it lacks the space.
pub record FirstFit (fsm : FreeSpaceMap) (avail : ℕ → ℕ) (required p : ℕ) : Type 0 where
  pub before : List ℕ
  pub after : List ℕ
  pub split : fsm.allocated_pages ≡ before ++ (p ∷ after)
  pub earlier : (q : ℕ) → is_allocated before q ≡ true → Lacks avail required q
  pub allocated : is_allocated fsm.allocated_pages p ≡ true
  pub some_space : 0 < avail p
  pub enough : min required 8192 ≤ avail p + 32

-- In a map that reflects the space of its pages the search is first fit. Either it returns an allocated
-- page that has some space and misses at most 32 bytes of the space required (a request above a page
-- counts as a page), and every page before it in the order of the scan has less than required or less
-- than 33 bytes; or it returns the invalid id 0, and every allocated page has less than required or
-- less than 33 bytes. Page 0, when it is found, gives the same result 0 as a search that found nothing.
pub find_page_with_space_lem :
    (fsm : FreeSpaceMap) (avail : ℕ → ℕ) (required : ℕ)
    → Reflects fsm avail
    → FirstFit fsm avail required (find_page_with_space fsm required)
      ⊎ ((find_page_with_space fsm required ≡ invalid_page_id)
          × ((q : ℕ) → is_allocated fsm.allocated_pages q ≡ true → Lacks avail required q))
unfolding find_page_with_space
find_page_with_space_lem fsm avail required r =
    elim (find_page_lem fsm.fsm_cache (bytes_to_category required) fsm.allocated_pages r.tracked) [
      | inl f ↦ inl (record {
        before = f.before;
        after = f.after;
        split = f.split;
        earlier = λ q h. lacks q (in_front _ f.before f.after f.split q h) (f.earlier q h);
        allocated = f.allocated;
        some_space = category_positive (omega (arith, f.positive, r.category _ f.allocated));
        enough = category_enough _ _ (omega (arith, f.enough, r.category _ f.allocated));
      })
      | inr (e, f) ↦ inr (e, λ q h. lacks q h (f q h))
    ]
  where
    lacks :
        (q : ℕ)
        → is_allocated fsm.allocated_pages q ≡ true
        → Unfit fsm.fsm_cache (bytes_to_category required) q
        → Lacks avail required q
    lacks q h (inl less) =
        inl ((bytes_to_category_order (avail q) required).2 (omega (arith, less, r.category q h)))
    lacks q h (inr none) = inr (category_zero (avail q) (omega (arith, none, r.category q h)))

    in_front :
        (p : ℕ) (before after : List ℕ)
        → fsm.allocated_pages ≡ before ++ (p ∷ after)
        → (q : ℕ) → is_allocated before q ≡ true
        → is_allocated fsm.allocated_pages q ≡ true
    in_front p before after split q h =
        ap (λ (l : List ℕ). is_allocated l q) split ∙ is_allocated-append before (p ∷ after) q h
