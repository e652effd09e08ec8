-- ===== src/Transfer/Counts.antt =====
-- The categories hold the entries that were found, each once, and a transfer accounts for all of them.
use helix_memory.Prelude.{
  ℕ, ◌+◌, ◌≡◌, refl, sym, ap, ◌∙◌, String, str_eq, Bool, true, false, Bool-cases, inl, inr, List,
  [], ◌∷◌, ◌++◌, map, Option, none, some, Dict, lookup, insert, lookup-insert, length,
  length-append, keep, sum_of, sum_of-Perm, arith, if◌then◌else◌, eq_iff,
}
use mathlib.Core.List.{append-nil, append_assoc}
use helix_memory.Runtime.{Floats, Runtime, IsGo}
use helix_memory.Types.{MemoryEntry, SearchResult, Instant}
use helix_memory.Types.Provider.{MemoryProvider, Error, ok}
use helix_memory.Transfer.{
  TransferableKnowledge, TransferResult, new_result, made_list, category_of, put_entry, group,
  knowledge_of, copy_of, dna_request, knowledge_found, identify_transferable, count_added,
  transfer_entries, transfer_all, transfer_known, timed, transfer,
}

module _ {fl : Floats} where
  abbrev pub in_category : String → MemoryEntry fl → Bool
  in_category c e = str_eq (category_of e) c

  abbrev pub held : String → Dict (List (MemoryEntry fl)) → List (MemoryEntry fl)
  held c categories = made_list (lookup c categories)

  held-put_entry :
      (c : String) (categories : Dict (List (MemoryEntry fl))) (e : MemoryEntry fl)
      → held c (put_entry categories e)
        ≡ (if in_category c e then held c categories ++ e ∷ [] else held c categories)
  unfolding put_entry
  held-put_entry c categories e = elim (Bool-cases (str_eq (category_of e) c)) [
    | inl same ↦
        ap made_list (lookup-insert (category_of e) c _ categories)
        ∙ rw same (rw ((eq_iff (category_of e) c).0 same) refl)
    | inr other ↦ ap made_list (lookup-insert (category_of e) c _ categories) ∙ rw other
  ]

  append_one :
      (b : Bool) (xs : List (MemoryEntry fl)) (e : MemoryEntry fl) (ys : List (MemoryEntry fl))
      → (if b then xs ++ e ∷ [] else xs) ++ ys ≡ xs ++ (if b then e ∷ ys else ys)
  append_one true xs e ys = append_assoc xs (e ∷ []) ys
  append_one false xs e ys = refl

  -- What a category holds after the loop: what it held, and the entries of that category, in order.
  pub group-keep :
      (c : String) (es : List (MemoryEntry fl)) (categories : Dict (List (MemoryEntry fl)))
      → held c (group es categories) ≡ held c categories ++ keep (in_category c) es
  unfolding group
  group-keep c [] categories = sym (append-nil _)
  group-keep c (e ∷ es) categories =
      group-keep c es (put_entry categories e)
      ∙ rw (held-put_entry c categories e)
          (append_one (in_category c e) (held c categories) e (keep (in_category c) es))

  abbrev sizes : Dict (List (MemoryEntry fl)) → ℕ
  sizes categories = sum_of (λ c. length c.1) categories

  sizes-insert :
      (c : String) (xs : List (MemoryEntry fl)) (categories : Dict (List (MemoryEntry fl)))
      → sizes (insert c xs categories) + length (held c categories) ≡ sizes categories + length xs
  unfolding lookup insert
  sizes-insert c xs [] = omega arith
  sizes-insert c xs ((j, w) ∷ m) = elim (Bool-cases (str_eq j c)) [
    | inl same ↦ rw same (omega arith)
    | inr other ↦ rw other (omega (arith, sizes-insert c xs m))
  ]

  sizes-put_entry :
      (categories : Dict (List (MemoryEntry fl))) (e : MemoryEntry fl)
      → sizes (put_entry categories e) ≡ sizes categories + 1
  unfolding put_entry
  sizes-put_entry categories e = omega (
    arith,
    sizes-insert (category_of e) (held (category_of e) categories ++ e ∷ []) categories,
    length-append (held (category_of e) categories) (e ∷ []),
  )

  sizes-group :
      (es : List (MemoryEntry fl)) (categories : Dict (List (MemoryEntry fl)))
      → sizes (group es categories) ≡ sizes categories + length es
  unfolding group
  sizes-group [] categories = omega arith
  sizes-group (e ∷ es) categories =
      omega (arith, sizes-group es (put_entry categories e), sizes-put_entry categories e)

module _ {fl : Floats} (mp : MemoryProvider fl) (new_id : MemoryEntry fl → String) (now : Instant)
    (source_project target_project : String) where
  abbrev accounted : TransferResult → ℕ
  accounted r = r.transferred + r.failed

  accounted-count_added :
      (o : Option Error) (r : TransferResult)
      → accounted (count_added mp new_id now source_project target_project o r) ≡ accounted r + 1
  unfolding count_added
  accounted-count_added none r = omega arith
  accounted-count_added (some e) r = omega arith

  skipped-count_added :
      (o : Option Error) (r : TransferResult)
      → (count_added mp new_id now source_project target_project o r).skipped ≡ r.skipped
  unfolding count_added
  skipped-count_added none r = refl
  skipped-count_added (some e) r = refl

  transfer_entries_lem :
      (category : String) (es : List (MemoryEntry fl)) (s : mp.State) (r : TransferResult)
      → let after =
          (transfer_entries mp new_id now source_project target_project category es (s, r)).1 in
        (accounted after ≡ accounted r + length es) × (after.skipped ≡ r.skipped)
  unfolding transfer_entries
  transfer_entries_lem category [] s r = (omega arith, refl)
  transfer_entries_lem category (e ∷ es) s r =
      let added = mp.add s (copy_of new_id now source_project target_project category e) in
      let (total, skipped) =
        transfer_entries_lem category es added.0
          (count_added mp new_id now source_project target_project added.1 r) in
      (
        omega (arith, total, accounted-count_added added.1 r),
        skipped ∙ skipped-count_added added.1 r,
      )

  found_in : List (TransferableKnowledge fl) → ℕ
  found_in ks = sum_of (λ k. length k.entries) ks

  transfer_all_lem :
      (ks : List (TransferableKnowledge fl)) (r : mp.State × TransferResult)
      → let after = (transfer_all mp new_id now source_project target_project ks r).1 in
        (accounted after ≡ accounted r.1 + found_in ks) × (after.skipped ≡ r.1.skipped)
  unfolding transfer_all found_in
  transfer_all_lem [] r = (omega arith, refl)
  transfer_all_lem (k ∷ ks) r =
      let step = transfer_entries_lem k.category k.entries r.0 r.1 in
      let (total, skipped) =
        transfer_all_lem ks
          (transfer_entries mp new_id now source_project target_project k.category k.entries r) in
      (omega (arith, total, step.0), skipped ∙ step.1)

  found_in-map :
      (group_id : String → String) (groups : Dict (List (MemoryEntry fl)))
      → found_in (map (knowledge_of group_id source_project) groups) ≡ sizes groups
  unfolding found_in knowledge_of
  found_in-map group_id [] = refl
  found_in-map group_id ((c, es) ∷ groups) = omega (arith, found_in-map group_id groups)

  -- Where the search gives a result, a transfer ends with a result too: every entry that was found is
  -- counted once, as transferred or as failed, and none as skipped.
  pub transfer_accounts :
      (rt : Runtime) (go : IsGo rt) (group_id : String → String) (query : String) (duration : ℕ)
      (s s' : mp.State) (result : SearchResult fl)
      → mp.search s (dna_request mp rt query) ≡ (s', ok (some result))
      → (s'' : mp.State) × (r : TransferResult) × (transfer mp new_id now source_project
            target_project rt group_id query duration s
          ≡ some (s'', ok r))
        × (r.transferred + r.failed ≡ length result.entries)
        × (r.skipped ≡ 0)
  unfolding transfer transfer_known identify_transferable knowledge_found timed
  transfer_accounts rt go group_id query duration s s' result h =
      let groups = group result.entries [] in
      let order = go.range_order-perm (String × List (MemoryEntry fl)) groups in
      let knowledge =
        map (knowledge_of group_id source_project)
          (rt.range_order (String × List (MemoryEntry fl)) groups) in
      let run =
        transfer_all mp new_id now source_project target_project knowledge
          (s', new_result source_project target_project) in
      let counts = transfer_all_lem knowledge (s', new_result source_project target_project) in
      let r = run.1 in
      (
        run.0,
        record r { duration = duration },
        rw h,
        omega (
          arith,
          counts.0,
          found_in-map group_id (rt.range_order (String × List (MemoryEntry fl)) groups),
          sum_of-Perm (λ (c : String × List (MemoryEntry fl)). length c.1) order,
          sizes-group result.entries [],
        ),
        counts.1,
      )
