-- ===== src/Graph/Store/Edits.antt =====
-- graph/store.py: edits of the dict of nodes, or of edges, one property of one entry each.
use margin_mvp.Base.{◌≡◌, ◌≢◌, refl, sym, ap, ◌∙◌, ◌⊎◌, inl, inr, Option, none, some, List, Eq}
use margin_mvp.Base.Lists.{All}
use margin_mvp.Base.Dict.{Dict, lookup, insert}
use margin_mvp.Base.Dict.Laws.{lookup-insert_self, lookup-insert_ne, insert-insert, insert_comm}
use margin_mvp.Base.Replay.{write_all, write_all_twice, Covers, Commutes}
use margin_mvp.Value.{Props}
use margin_mvp.Graph.Store.Merge.{or_props}
use margin_mvp.Graph.Store.Changes.{
  Change, apply, Plain, IsMade, apply_own, apply_kept, apply_again, apply_meet,
}

-- a change of the dict at a key, with the dict that stands there if none does yet
pub record Edit {ℓ} (K : Type ℓ) : Type ℓ where
  pub key : K
  pub base : Props
  pub change : Change

module _ {ℓ} {K : Type ℓ} ⦃e : Eq K⦄ where
  unfoldable pub edit : Edit K → Dict K Props → Dict K Props
  edit a d = insert a.key (apply a.change (or_props (lookup a.key d) a.base)) d

  abbrev IsThere : Edit K → Dict K Props → Type 0
  IsThere a d = (node : Props) × (lookup a.key d ≡ some node) × IsMade a.change node

  abbrev pub PlainEdit : Edit K → Type 0
  PlainEdit a = Plain a.change

  abbrev after : Edit K → Option Props → Props
  after a old = apply a.change (or_props old a.base)

  pub edit_lem :
      (a : Edit K) (d : Dict K Props) → edit a d ≡ insert a.key (after a (lookup a.key d)) d
  unfolding edit
  edit_lem a d = refl

  edit_at :
      (a : Edit K) (k : K) (d : Dict K Props) (node : Props)
      → a.key ≡ k
      → lookup k d ≡ some node
      → edit a d ≡ insert k (apply a.change node) d
  edit_at a k d node same found =
      edit_lem a d
      ∙ ap (λ i. insert i (after a (lookup i d)) d) same
      ∙ ap (λ x. insert k (after a x) d) found

  lookup-edit_ne :
      (k : K) (a : Edit K) (d : Dict K Props) → k ≢ a.key → lookup k (edit a d) ≡ lookup k d
  lookup-edit_ne k a d other = ap (lookup k) (edit_lem a d) ∙ lookup-insert_ne k a.key _ d other

  lookup-edit_self :
      (a : Edit K) (d : Dict K Props) → lookup a.key (edit a d) ≡ some (after a (lookup a.key d))
  lookup-edit_self a d = ap (lookup a.key) (edit_lem a d) ∙ lookup-insert_self a.key _ d

  edit_own : (a : Edit K) (d : Dict K Props) → IsThere a (edit a d)
  edit_own a d = (after a (lookup a.key d), lookup-edit_self a d, apply_own a.change _)

  edit_kept : (a b : Edit K) (d : Dict K Props) → PlainEdit b → IsThere a d → IsThere a (edit b d)
  edit_kept a b d plain (node, found, made) = elim (e.dec b.key a.key) [
    | yes same ↦ (
      apply b.change node,
      ap (lookup a.key) (edit_at b a.key d node same found) ∙ lookup-insert_self a.key _ d,
      apply_kept a.change b.change node plain made,
    )
    | no other ↦ (node, lookup-edit_ne a.key b d (λ p. other (sym p)) ∙ found, made)
  ]

  -- two edits of one node
  edit-edit :
      (b a : Edit K) (d : Dict K Props) (node : Props)
      → b.key ≡ a.key
      → lookup a.key d ≡ some node
      → edit b (edit a d) ≡ insert a.key (apply b.change (apply a.change node)) d
  edit-edit b a d node same found =
      let first : Props = apply a.change node in
      ap (edit b) (edit_at a a.key d node refl found)
      ∙ edit_at b a.key (insert a.key first d) first same (lookup-insert_self a.key first d)
      ∙ insert-insert a.key first (apply b.change first) d

  edit_again : (a : Edit K) (d : Dict K Props) → edit a (edit a d) ≡ edit a d
  edit_again a d =
      let node : Props = or_props (lookup a.key d) a.base in
      edit_at a a.key (edit a d) (apply a.change node) refl (lookup-edit_self a d)
      ∙ ap (insert a.key (apply a.change (apply a.change node))) (edit_lem a d)
      ∙ insert-insert a.key _ _ d
      ∙ ap (λ n. insert a.key n d) (apply_again a.change node)
      ∙ sym (edit_lem a d)

  -- edits of two nodes of which the first one is there
  edit_comm :
      (b a : Edit K) (d : Dict K Props) (node : Props)
      → b.key ≢ a.key
      → lookup a.key d ≡ some node
      → edit b (edit a d) ≡ edit a (edit b d)
  edit_comm b a d node other found =
      let mine : Props = apply a.change node in
      let theirs : Props = after b (lookup b.key d) in
      edit_lem b (edit a d)
      ∙ ap (λ x. insert b.key (after b x) (edit a d)) (lookup-edit_ne b.key a d other)
      ∙ ap (insert b.key theirs) (edit_at a a.key d node refl found)
      ∙ sym (
          insert_comm b.key a.key mine theirs d other
            (λ none_there. let bad : some node ≡ none = sym found ∙ none_there in cc))
      ∙ ap (insert a.key mine) (sym (edit_lem b d))
      ∙ sym (
          edit_at a a.key (edit b d) node refl
            (lookup-edit_ne a.key b d (λ p. other (sym p)) ∙ found))

  edit_meet :
      (b a : Edit K)
      → PlainEdit b
      → PlainEdit a
      → Covers edit IsThere PlainEdit b a ⊎ Commutes edit IsThere PlainEdit b a
  edit_meet b a pb pa = elim (e.dec b.key a.key) [
    | yes same ↦ elim (apply_meet b.change a.change pb pa) [
      | inl covered ↦ inl (λ d (node, found, made).
          edit-edit b a d node same found
          ∙ ap (λ n. insert a.key n d) (covered node made)
          ∙ sym (edit_at b a.key d node same found))
      | inr commuting ↦ inr (λ d (node, found, made).
          edit-edit b a d node same found
          ∙ ap (λ n. insert a.key n d) (commuting node made)
          ∙ sym (
              ap (edit a) (edit_at b a.key d node same found)
              ∙ edit_at a a.key (insert a.key (apply b.change node) d) (apply b.change node) refl
                  (lookup-insert_self a.key (apply b.change node) d)
              ∙ insert-insert a.key _ _ d))
    ]
    | no other ↦ inr (λ d (node, found, made). edit_comm b a d node other found)
  ]

  -- A sequence of edits that is made twice is the sequence made once, order included.
  pub edits_twice :
      (edits : List (Edit K)) (d : Dict K Props)
      → All PlainEdit edits
      → write_all edit edits (write_all edit edits d) ≡ write_all edit edits d
  edits_twice = write_all_twice edit IsThere PlainEdit edit_own edit_kept edit_again edit_meet
