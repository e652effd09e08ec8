-- ===== src/Fusion/Dedup/BySimilarity.antt =====
-- Phase 2 of deduplicateEntries: entries with similar embeddings become one.
use mathlib.Core.List.{Memᴰ}
use helix_memory.Prelude.{
  true, false, ◌≡◌, refl, subst, ◌⊎◌, inl, inr, List, [], ◌∷◌, Option, none, some, All, All-append,
  Some, Some-append, Some-append_one, Bool-cases, Option-cases, arith,
}
use helix_memory.Runtime.{Floats, IsStrictWeak}
use helix_memory.Types.{MemoryEntry}
use helix_memory.Fusion.Dedup.{is_similar, push_front, merge_into, absorb, merge_similar_embeddings}

-- `Linked e r`: from `e` to `r` leads a chain of entries, each similar to the one before it (on
-- one side of the comparison or the other) and of no lower confidence.
pub data Linked (fl : Floats) : MemoryEntry fl → MemoryEntry fl → Type 0 where
  self : {e : MemoryEntry fl} → Linked fl e e
  onward :
      {e m r : MemoryEntry fl}
      → Linked fl e m
      → (is_similar fl m r ≡ true) ⊎ (is_similar fl r m ≡ true)
      → fl.lt r.confidence m.confidence ≡ false
      → Linked fl e r

module _ (fl : Floats) where
  abbrev OnSome : (List (MemoryEntry fl) → Type 0) → Option (List (MemoryEntry fl)) → Type 0
  OnSome P none = Unit
  OnSome P (some out) = P out

  -- `out` stands for `e` and for all that `rs` stood for.
  record Represents (e : MemoryEntry fl) (rs out : List (MemoryEntry fl)) : Type 0 where
    new : Some (Linked fl e) out
    old : (x : MemoryEntry fl) → Some (Linked fl x) rs → Some (Linked fl x) out

  -- A chain to the head goes on to what takes its place; a chain to the tail stays.
  replace_head :
      (x r r' : MemoryEntry fl) (rs : List (MemoryEntry fl))
      → (Linked fl x r → Linked fl x r')
      → Some (Linked fl x) (r ∷ rs)
      → Some (Linked fl x) (r' ∷ rs)
  replace_head x r r' rs f (m, Memᴰ.head p, l) = (r', Memᴰ.head refl, f (subst (Linked fl x) p l))
  replace_head x r r' rs f (m, Memᴰ.tail t, l) = (m, Memᴰ.tail t, l)

  under_head :
      (e r : MemoryEntry fl) (rs : List (MemoryEntry fl)) (merged : Option (List (MemoryEntry fl)))
      → OnSome (Represents e rs) merged
      → OnSome (Represents e (r ∷ rs)) (push_front fl r merged)
  unfolding push_front
  under_head e r rs none h = tt
  under_head e r rs (some rs') h = record {
    new = let (m, t, l) = h.new in (m, Memᴰ.tail t, l);
    old = λ x s. grow x s;
  }
    where
      grow : (x : MemoryEntry fl) → Some (Linked fl x) (r ∷ rs) → Some (Linked fl x) (r ∷ rs')
      grow x (m, Memᴰ.head p, l) = (m, Memᴰ.head p, l)
      grow x (m, Memᴰ.tail t, l) = let (m', t', l') = h.old x (m, t, l) in (m', Memᴰ.tail t', l')

  module _ (ordered : IsStrictWeak fl.lt) where
    asym : (a b : fl.F64) → fl.lt a b ≡ true → fl.lt b a ≡ false
    asym a b h = ground (arith, ordered.trans a b a h, ordered.irrefl a)

    merge_into-Represents :
        (e : MemoryEntry fl) (rs : List (MemoryEntry fl))
        → OnSome (Represents e rs) (merge_into fl e rs)
    unfolding merge_into
    merge_into-Represents e [] = tt
    merge_into-Represents e (r ∷ rs) = elim (Bool-cases (is_similar fl e r)) [
      | inl close ↦ elim (Bool-cases (fl.lt r.confidence e.confidence)) [
        | inl better ↦
            rw (close, better)
              (record {
                new = (e, Memᴰ.head refl, self);
                old = λ x.
                    replace_head x r e rs
                      (λ l. onward l (inr close) (asym r.confidence e.confidence better));
              })
        | inr worse ↦
            rw (close, worse)
              (record { new = (r, Memᴰ.head refl, onward self (inl close) worse); old = λ x s. s })
      ]
      | inr far ↦ rw far (under_head e r rs (merge_into fl e rs) (merge_into-Represents e rs))
    ]

    absorb-Represents :
        (e : MemoryEntry fl) (rs : List (MemoryEntry fl)) → Represents e rs (absorb fl e rs)
    unfolding absorb
    absorb-Represents e rs = elim (Option-cases (merge_into fl e rs)) [
      | inl apart ↦ rw apart (record {
        new = Some-append_one (Linked fl e) rs e self;
        old = λ x. Some-append (Linked fl x) rs (e ∷ []);
      })
      | inr (out, merged) ↦ rw merged (rw merged at (merge_into-Represents e rs))
    ]

    -- Every entry that comes in is linked to an entry of the result.
    pub merge_similar_embeddings_covers :
        (result es : List (MemoryEntry fl))
        → ((x : MemoryEntry fl)
            → Some (Linked fl x) result
            → Some (Linked fl x) (merge_similar_embeddings fl result es))
          × All (λ e. Some (Linked fl e) (merge_similar_embeddings fl result es)) es
    unfolding merge_similar_embeddings
    merge_similar_embeddings_covers result [] = (λ x s. s, tt)
    merge_similar_embeddings_covers result (e ∷ es) =
        let step = absorb-Represents e result in
        let (later, covered) = merge_similar_embeddings_covers (absorb fl e result) es in
        (λ x s. later x (step.old x s), (later e step.new, covered))

module _ {fl : Floats} (P : MemoryEntry fl → Type 0) where
  All-merge_into :
      (e : MemoryEntry fl) (rs : List (MemoryEntry fl))
      → P e
      → All P rs
      → OnSome fl (All P) (merge_into fl e rs)
  unfolding merge_into
  All-merge_into e [] p h = tt
  All-merge_into e (r ∷ rs) p h = ground (arith, All-merge_into e rs p h.1)

  -- The result holds nothing but what came in.
  pub All-merge_similar_embeddings :
      (result es : List (MemoryEntry fl))
      → All P result
      → All P es
      → All P (merge_similar_embeddings fl result es)
  unfolding merge_similar_embeddings absorb
  All-merge_similar_embeddings result [] h hs = h
  All-merge_similar_embeddings result (e ∷ es) h hs =
      All-merge_similar_embeddings (absorb fl e result) es
        (elim (Option-cases (merge_into fl e result)) [
          | inl apart ↦ rw apart (All-append P result (e ∷ []) h (hs.0, tt))
          | inr (out, merged) ↦ rw merged (rw merged at (All-merge_into e result hs.0 h))
        ])
        hs.1
