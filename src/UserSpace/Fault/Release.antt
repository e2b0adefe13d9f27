-- ===== src/UserSpace/Fault/Release.antt =====
-- The release of pages: each frame loses one reference for each page that was mapped to it.
use mankoros.Base.{
  ℕ, zero, suc, ◌+◌, ◌-◌, ◌*◌, ◌^◌, ◌≤◌, ◌<◌, ◌≡◌, refl, sym, ap, ◌∙◌, Bool, false, ◌&&◌, ◌||◌,
  ◌==◌, ltb, if◌then◌else◌, Option, none, some, Option-cases, inl, inr, Bool-cases, List, [], ◌∷◌,
  update, ok, usize_mod, Returns, Returns-of, Returns-bind, Returns-map, arith,
}
use mankoros.Address.{page_size}
use mankoros.Address.Vpn.{visits, iter_vpn_correct}
use mankoros.Frame
use mankoros.Frame.{Frames}
use mankoros.Frame.Calls.{HasCounter, settles, counts, try_dealloc_correct}
use mankoros.Pte
use mankoros.UserSpace.Fault.Defs.{Pages, release_page, release_pages, release_range}

abbrev pub on_frame : Option ℕ → ℕ → ℕ
on_frame none p = 0
on_frame (some e) p = if Pte.ppn e == p then 1 else 0

-- how many of the first `n` pages are mapped to the frame `p`
abbrev pub mapped_on : (ℕ → Option ℕ) → ℕ → ℕ → ℕ
mapped_on es p zero = 0
mapped_on es p (suc n) = on_frame (es n) p + mapped_on es p n

mapped_on-above :
    (es : ℕ → Option ℕ) (p v n : ℕ) → n ≤ v → mapped_on (update es v none) p n ≡ mapped_on es p n
mapped_on-above es p v zero h = refl
mapped_on-above es p v (suc n) h =
    let ih = mapped_on-above es p v n (omega arith) in
    let apart : (n == v) ≡ false = ground arith in rw (apart, ih) refl

mapped_on-clear :
    (es : ℕ → Option ℕ) (p v n : ℕ)
    → v < n
    → mapped_on (update es v none) p n + on_frame (es v) p ≡ mapped_on es p n
mapped_on-clear es p v zero h = absurd (omega arith)
mapped_on-clear es p v (suc n) h = elim (Bool-cases (n == v)) [
  | inl same ↦
      let e : n ≡ v = ground (arith, same) in
      let rest = mapped_on-above es p v n (omega (arith, e)) in rw (same, rest, sym e) (omega arith)
  | inr apart ↦
      let ih = mapped_on-clear es p v n (ground (arith, apart)) in rw apart (omega (arith, ih))
]

released_frames :
    (f : Frames) (p : ℕ)
    → HasCounter f p
    → 0 < f.ref_cnt p
    → f.ref_cnt p < 2 ^ 32
    → (u : Frames) × (Frame.decrease_and_try_dealloc f p ≡ ok u)
      × (u.max_memory ≡ f.max_memory)
      × ((q : ℕ) → u.ref_cnt q ≡ (if q == p then f.ref_cnt p - 1 else f.ref_cnt q))
released_frames f p h a b = elim (Bool-cases (f.ref_cnt p == 1)) [
  | inl last ↦
      let one : f.ref_cnt p - 1 ≡ 0 = ground (arith, last) in
      (settles f p 0, try_dealloc_correct f p h a b ∙ rw last refl, refl, λ q. ground (arith, one))
  | inr more ↦ (
    counts f p (f.ref_cnt p - 1),
    try_dealloc_correct f p h a b ∙ rw more refl,
    refl,
    λ q. ground arith,
  )
]

-- the page has an address of the range
abbrev pub meets : ℕ → ℕ → ℕ → Bool
meets start end v = ltb start ((v + 1) * page_size) && ltb (v * page_size) end

module _ {C : Type 0} where
  -- the first `n` pages are all that can be mapped, and their frames count a reference for each
  pub record IsBacked (n : ℕ) (s : Pages C) : Type 0 where
    pub above : (v : ℕ) → n ≤ v → s.entries v ≡ none
    pub counters : (v e : ℕ) → s.entries v ≡ some e → HasCounter s.frames (Pte.ppn e)
    pub counted : (p : ℕ) → mapped_on s.entries p n ≤ s.frames.ref_cnt p
    pub small : (p : ℕ) → s.frames.ref_cnt p < 2 ^ 32

  -- the pages that are `gone` are not mapped any more, and their frames have lost as many references
  pub record Released (n : ℕ) (gone : ℕ → Bool) (s t : Pages C) : Type 0 where
    pub backed : IsBacked n t
    pub entries : (v : ℕ) → t.entries v ≡ (if gone v then none else s.entries v)
    pub references :
        (p : ℕ)
        → t.frames.ref_cnt p + mapped_on s.entries p n
          ≡ s.frames.ref_cnt p + mapped_on t.entries p n

  pub Released-none : (n : ℕ) (s : Pages C) → IsBacked n s → Released n (λ v. false) s s
  Released-none n s h = record { backed = h; entries = λ v. refl; references = λ p. refl }

  pub Released-cong :
      (n : ℕ) (f g : ℕ → Bool) (s t : Pages C)
      → ((v : ℕ) → f v ≡ g v)
      → Released n f s t
      → Released n g s t
  Released-cong n f g s t h r = record {
    backed = r.backed;
    entries = λ v. r.entries v ∙ ap (λ b. if b then none else s.entries v) (h v);
    references = r.references;
  }

  pub Released-trans :
      (n : ℕ) (f g : ℕ → Bool) (s t u : Pages C)
      → Released n f s t
      → Released n g t u
      → Released n (λ v. f v || g v) s u
  Released-trans n f g s t u p q = record {
    backed = q.backed;
    entries = λ v. ground (arith, p.entries v, q.entries v);
    references = λ k. omega (arith, p.references k, q.references k);
  }

  -- one page is unmapped
  cleared :
      (n v e : ℕ) (s : Pages C) (u : Frames)
      → IsBacked n s
      → s.entries v ≡ some e
      → v < n
      → u.max_memory ≡ s.frames.max_memory
      → ((q : ℕ)
          → u.ref_cnt q
            ≡ (if q == Pte.ppn e then s.frames.ref_cnt (Pte.ppn e) - 1 else s.frames.ref_cnt q))
      → Released n (λ w. v == w) s (record s { entries = update s.entries v none; frames = u })
  cleared n v e s u h is below max cnt =
      let c : (p : ℕ)
          → mapped_on (update s.entries v none) p n + (if Pte.ppn e == p then 1 else 0)
            ≡ mapped_on s.entries p n =
        λ p.
          ap (λ o. mapped_on (update s.entries v none) p n + on_frame o p) (sym is)
          ∙ mapped_on-clear s.entries p v n below in
      let refs : (p : ℕ)
          → u.ref_cnt p + mapped_on s.entries p n
            ≡ s.frames.ref_cnt p + mapped_on (update s.entries v none) p n =
        λ p. ground (arith, c p, cnt p, h.counted p) in
      record {
        backed = record {
          above = λ w l. ground (arith, h.above w l);
          counters = λ w g k. rw max (h.counters w g (ground (arith, k)));
          counted = λ p. omega (arith, refs p, h.counted p);
          small = λ p. ground (arith, cnt p, h.small p, h.small (Pte.ppn e));
        };
        entries = λ w. ground arith;
        references = refs;
      }

  release_page_correct :
      (n v : ℕ) (s : Pages C)
      → IsBacked n s
      → Returns (Released n (λ w. v == w) s) (release_page s v)
  unfolding release_page
  release_page_correct n v s h = elim (Option-cases (s.entries v)) [
    | inl gone ↦
        Returns-of {a = s} (ground (arith, gone))
          (record { backed = h; entries = λ w. ground (arith, gone); references = λ p. refl })
    | inr (e, is) ↦
        let below : v < n = ground (arith, h.above v, is) in
        let p = Pte.ppn e in
        let one : on_frame (some e) p ≡ 1 = ground arith in
        let c =
          ap (λ o. mapped_on (update s.entries v none) p n + on_frame o p) (sym is)
          ∙ mapped_on-clear s.entries p v n below in
        let some_ : 0 < s.frames.ref_cnt p = omega (arith, c, one, h.counted p) in
        let (u, call, max, cnt) =
          released_frames s.frames p (h.counters v e is) some_ (h.small p) in
        Returns-of {a = record s { entries = update s.entries v none; frames = u }}
          (ground (arith, is, call)) (cleared n v e s u h is below max cnt)
  ]

  release_pages_correct :
      (n : ℕ) (l : List ℕ) (s : Pages C)
      → IsBacked n s
      → Returns (Released n (λ w. visits w l) s) (release_pages s l)
  unfolding release_pages visits
  release_pages_correct n [] s h = Returns-of {a = s} refl (Released-none n s h)
  release_pages_correct n (v ∷ l) s h = Returns-bind (release_page_correct n v s h) λ t p.
      Returns-map (release_pages_correct n l t p.backed)
        (λ u q. Released-trans n (λ w. v == w) (λ w. visits w l) s t u p q)

  -- Releasing a range that is not empty, of pages whose frames count them, does not panic: the pages that have an
  -- address of the range are not mapped any more, the others are as before, and each frame has lost one reference
  -- for each page of it.
  pub release_range_correct :
      (n start end : ℕ) (s : Pages C)
      → IsBacked n s
      → start < end
      → end + page_size < usize_mod
      → Returns (Released n (meets start end) s) (release_range s start end)
  unfolding release_range
  release_range_correct n start end s h a b =
      Returns-bind (iter_vpn_correct start end a b) λ l same.
        Returns-map (release_pages_correct n l s h)
          (λ t r. Released-cong n (λ w. visits w l) (meets start end) s t same r)
