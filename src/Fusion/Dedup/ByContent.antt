-- ===== src/Fusion/Dedup/ByContent.antt =====
-- Phase 1 of deduplicateEntries: the best entry for each content.
use helix_memory.Prelude.{
  All-insert, HasDistinctKeys, insert-HasDistinctKeys, String, true, false, ◌≡◌, ap, ◌∙◌, List, [],
  ◌∷◌, some, Dict, lookup, insert, lookup-insert, eq_iff, eq_refl, str_eq, All, Bool-cases,
  Option-cases, inl, inr, arith, if◌then◌else◌,
}
use helix_memory.Runtime.{Floats, IsStrictWeak}
use helix_memory.Types.{MemoryEntry}
use helix_memory.Fusion.Dedup.{is_better, best_by_content}

module _ {fl : Floats} where
  -- The map has an entry for the content of `e`, of no lower confidence.
  abbrev pub IsCovered : Dict (MemoryEntry fl) → MemoryEntry fl → Type 0
  IsCovered best e =
      (b : MemoryEntry fl) × (lookup e.content best ≡ some b)
      × (fl.lt b.confidence e.confidence ≡ false)

  -- Each key is the content of its entry.
  abbrev pub IsKeyed : Dict (MemoryEntry fl) → Type 0
  IsKeyed best = (k : String) (b : MemoryEntry fl) → lookup k best ≡ some b → b.content ≡ k

module _ (fl : Floats) where
  abbrev next : Dict (MemoryEntry fl) → MemoryEntry fl → Dict (MemoryEntry fl)
  next best e = if is_better fl (lookup e.content best) e then insert e.content e best else best

  found_self :
      (best : Dict (MemoryEntry fl)) (e : MemoryEntry fl)
      → lookup e.content (insert e.content e best) ≡ some e
  found_self best e = simp (lookup-insert, eq_refl)

  module _ (ordered : IsStrictWeak fl.lt) where
    -- After a round the new entry is covered,
    next_covers : (best : Dict (MemoryEntry fl)) (e : MemoryEntry fl) → IsCovered (next best e) e
    unfolding is_better
    next_covers best e = elim (Option-cases (lookup e.content best)) [
      | inl fresh ↦ rw fresh (e, found_self best e, ordered.irrefl e.confidence)
      | inr (b, old) ↦ elim (Bool-cases (fl.lt b.confidence e.confidence)) [
        | inl worse ↦ rw (old, worse) (e, found_self best e, ordered.irrefl e.confidence)
        | inr good ↦ rw (old, good) (b, old, good)
      ]
    ]

    -- An entry above one that is not below `x` is not below `x`.
    not_below : (b e x : fl.F64) → fl.lt b e ≡ true → fl.lt b x ≡ false → fl.lt e x ≡ false
    not_below b e x up above = ground (arith, ordered.trans b e x)

    -- and an entry that was covered stays so.
    next_keeps :
        (best : Dict (MemoryEntry fl)) (e x : MemoryEntry fl)
        → IsCovered best x
        → IsCovered (next best e) x
    unfolding is_better
    next_keeps best e x (b, found, above) =
        elim (Bool-cases (is_better fl (lookup e.content best) e)) [
          | inr kept ↦ rw kept (b, found, above)
          | inl better ↦ elim (Bool-cases (str_eq e.content x.content)) [
            | inl same ↦
                let at : lookup e.content best ≡ some b =
                  ap (λ k. lookup k best) ((eq_iff _ _).0 same) ∙ found in
                rw better (
                  e,
                  rw (lookup-insert, same),
                  not_below b.confidence e.confidence x.confidence (rw at at better) above,
                )
            | inr other ↦ rw better (b, rw (lookup-insert, other) found, above)
          ]
        ]

    covers_from :
        (best : Dict (MemoryEntry fl)) (es : List (MemoryEntry fl)) (x : MemoryEntry fl)
        → IsCovered best x
        → IsCovered (best_by_content fl best es) x
    unfolding best_by_content
    covers_from best [] x h = h
    covers_from best (e ∷ es) x h = covers_from (next best e) es x (next_keeps best e x h)

    -- Every entry is covered: its content has one of no lower confidence.
    pub best_by_content_covers :
        (best : Dict (MemoryEntry fl)) (es : List (MemoryEntry fl))
        → All (IsCovered (best_by_content fl best es)) es
    unfolding best_by_content
    best_by_content_covers best [] = tt
    best_by_content_covers best (e ∷ es) = (
      covers_from (next best e) es e (next_covers best e),
      best_by_content_covers (next best e) es,
    )

module _ {fl : Floats} (P : String × MemoryEntry fl → Type 0) where
  -- What holds of each entry under its content holds of the whole map.
  pub All-best_by_content :
      (best : Dict (MemoryEntry fl)) (es : List (MemoryEntry fl))
      → All P best
      → All (λ e. P (e.content, e)) es
      → All P (best_by_content fl best es)
  unfolding best_by_content
  All-best_by_content best [] h hs = h
  All-best_by_content best (e ∷ es) h hs =
      All-best_by_content (next fl best e) es
        (elim (Bool-cases (is_better fl (lookup e.content best) e)) [
          | inl better ↦ rw better (All-insert P e.content e best hs.0 h)
          | inr kept ↦ rw kept h
        ])
        hs.1

module _ (fl : Floats) where
  -- No content stands twice.
  pub best_by_content-HasDistinctKeys :
      (best : Dict (MemoryEntry fl)) (es : List (MemoryEntry fl))
      → HasDistinctKeys best
      → HasDistinctKeys (best_by_content fl best es)
  unfolding best_by_content
  best_by_content-HasDistinctKeys best [] h = h
  best_by_content-HasDistinctKeys best (e ∷ es) h =
      best_by_content-HasDistinctKeys (next fl best e) es
        (elim (Bool-cases (is_better fl (lookup e.content best) e)) [
          | inl better ↦ rw better (insert-HasDistinctKeys e.content e best h)
          | inr kept ↦ rw kept h
        ])
