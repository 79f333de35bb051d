-- ===== src/Directory/Builder/Groups.antt =====
-- The groups under the calls for group documents.
use mindoo_db.Base.{
  any-values-set, ℕ, ◌≡◌, ◌≢◌, ◌∙◌, ◌||◌, Bool, some, List, ◌∷◌, JsString, str_dec, ite, lookup,
  set, values, foldl, arith, lookup-set, true, false, [], has, has-add, add, any,
}
use mindoo_db.Directory.{node_of, GroupSnapshot}
use mindoo_db.Directory.Builder.{DirectoryStateChainBuilder, push, recompute_group, apply_group_doc}
use mindoo_db.Directory.Contributions.{union_group}

has-add_all :
    (h : JsString) (hs into : List JsString)
    → has str_dec h (foldl (λ m x. add str_dec x m) into hs)
      ≡ (has str_dec h into || has str_dec h hs)
has-add_all h [] into = ground arith
has-add_all h (x ∷ hs) into =
    has-add_all h hs (add str_dec x into) ∙ ground (arith, has-add str_dec x h into)

-- A group document gives the group the member.
abbrev pub gives : JsString → JsString → GroupSnapshot → Bool
gives name h g = ite (str_dec g.name name) (has str_dec h g.member_hashes) false

abbrev is_named : JsString → GroupSnapshot → Bool
is_named name g = ite (str_dec g.name name) true false

has-union_groups :
    (name h : JsString) (gs : List GroupSnapshot) (u : List JsString × Bool)
    → has str_dec h (foldl (union_group name) u gs).0 ≡ (has str_dec h u.0 || any (gives name h) gs)
unfolding union_group
has-union_groups name h [] u = ground arith
has-union_groups name h (g ∷ gs) u =
    has-union_groups name h gs (union_group name u g)
    ∙ ground (arith, has-add_all h g.member_hashes u.0)

any-union_groups :
    (name : JsString) (gs : List GroupSnapshot) (u : List JsString × Bool)
    → (foldl (union_group name) u gs).1 ≡ (u.1 || any (is_named name) gs)
unfolding union_group
any-union_groups name [] u = ground arith
any-union_groups name (g ∷ gs) u = any-union_groups name gs (union_group name u g) ∙ ground arith

module _ {Num : Type 0} where
  -- After a group document is applied, in any builder, the group of its name has at the head exactly
  -- the members that some group document in force gives to it, and every other group is as before,
  -- also the group that the document was of when it had another name.
  pub apply_group_doc_members :
      (t : ℕ) (doc_id name : JsString) (members : List JsString)
      (b : DirectoryStateChainBuilder Num)
      → (g : GroupSnapshot) × (lookup str_dec name
            (node_of (apply_group_doc t doc_id name members b).head).groups_by_name
          ≡ some g)
        × ((h : JsString)
            → has str_dec h g.member_hashes
              ≡ any (gives name h) (
                  values (
                    set str_dec doc_id
                      (record { name = name; member_hashes = members })
                      b.group_contributions)))
        × ((other : JsString)
            → other ≢ name
            → lookup str_dec other
                (node_of (apply_group_doc t doc_id name members b).head).groups_by_name
              ≡ lookup str_dec other (node_of b.head).groups_by_name)
  unfolding apply_group_doc recompute_group push
  apply_group_doc_members t doc_id name members b =
      let groups = (node_of b.head).groups_by_name in
      let gs = values (
        set str_dec doc_id (record { name = name; member_hashes = members })
          b.group_contributions) in
      let u = foldl (union_group name) ([], false) gs in
      let g : GroupSnapshot = record { name = name; member_hashes = u.0 } in
      let named : u.1 ≡ true =
        any-union_groups name gs ([], false)
        ∙ any-values-set str_dec (is_named name) doc_id
            (record { name = name; member_hashes = members }) b.group_contributions
            (ground arith) in
      (
        g,
        ground (arith, named, lookup-set str_dec name name g groups),
        λ h. has-union_groups name h gs ([], false),
        λ other ne. ground (arith, named, lookup-set str_dec other name g groups),
      )
