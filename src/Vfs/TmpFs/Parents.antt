-- ===== src/Vfs/TmpFs/Parents.antt =====
-- The parent directory of a path in tmpfs.rs, and what a change of one entry in it shows.
use vyper.Prelude.{
  ◌≡◌, refl, ap, sym, ◌∙◌, Option, none, some, List, [], ◌∷◌, arith, if◌then◌else◌, Bytes, bytes_eq,
  bytes_eq_refl, ok,
}
use vyper.Vfs.Types.{VfsResult}
use vyper.Vfs.TmpFs.{parent_dir, put_dir}
use vyper.Vfs.TmpFs.Tree.{Node, Entries, directory}
use vyper.Vfs.TmpFs.Nodes.{as_dir, navigate, navigate_to_parent, parent_of, last_of}
use vyper.Vfs.TmpFs.View.{Kind, look, look_in, strip, strip_or, look-strip, look-put_at}

-- The last component of a path, behind its parent.
abbrev pub last_step : Bytes → List Bytes → Option (List Bytes)
last_step name [] = none
last_step name (k ∷ r) = if bytes_eq name k then some r else none

abbrev pub strip_then : Option (List Bytes) → Bytes → Option (List Bytes)
strip_then none name = none
strip_then (some r) name = last_step name r

strip_parent :
    (p : Bytes) (ps q : List Bytes)
    → strip (p ∷ ps) q ≡ strip_then (strip (parent_of (p ∷ ps)) q) (last_of p ps)
strip_parent p [] [] = refl
strip_parent p [] (k ∷ q) = refl
strip_parent p (p' ∷ ps) [] = refl
strip_parent p (p' ∷ ps) (k ∷ q) = ground (arith, strip_parent p' ps q)

-- The parent directory of a path: its entries, and the name looked for in them.
pub record Parent (root : Node) (parts : List Bytes) (es : Entries) (name : Bytes) : Type 0 where
  pub reached : navigate root (parent_of parts) ≡ ok (directory es)
  pub below : (q : List Bytes) → strip parts q ≡ strip_then (strip (parent_of parts) q) name
  pub itself : strip (parent_of parts) parts ≡ some (name ∷ [])

strip_itself :
    (p : Bytes) (ps : List Bytes) → strip (parent_of (p ∷ ps)) (p ∷ ps) ≡ some (last_of p ps ∷ [])
strip_itself p [] = refl
strip_itself p (q ∷ ps) = rw (bytes_eq_refl p) (strip_itself q ps)

parent_dir_cons :
    (root : Node) (p : Bytes) (ps : List Bytes) (n : VfsResult Node) (es : Entries) (name : Bytes)
    → navigate root (parent_of (p ∷ ps)) ≡ n
    → parent_dir root (p ∷ ps) ≡ ok (es, name)
    → (n ≡ ok (directory es)) × (name ≡ last_of p ps)
unfolding parent_dir navigate_to_parent as_dir
parent_dir_cons root p ps n es name e h = ground arith

pub parent_dir-Parent :
    (root : Node) (parts : List Bytes) (es : Entries) (name : Bytes)
    → parent_dir root parts ≡ ok (es, name)
    → Parent root parts es name
unfolding parent_dir navigate_to_parent
parent_dir-Parent root [] es name h = cc
parent_dir-Parent root (p ∷ ps) es name h =
    let (at, last) =
      parent_dir_cons root p ps (navigate root (parent_of (p ∷ ps))) es name refl h in
    record {
      reached = at;
      below = λ q. rw last (strip_parent p ps q);
      itself = rw last (strip_itself p ps);
    }

-- What changes where the entry `name` of the parent changes: `seen` is what then stands at the
-- path and below it.
pub look-put_dir :
    (root : Node) (parts q : List Bytes) (es es' : Entries) (name : Bytes)
    (seen : List Bytes → VfsResult Kind)
    → Parent root parts es name
    → ((r : List Bytes) → look_in es' r ≡ strip_or (last_step name r) (look_in es r) seen)
    → look (put_dir root parts es') q ≡ strip_or (strip parts q) (look root q) seen
look-put_dir root parts q es es' name seen p h =
    look-put_at root (parent_of parts) q es es' p.reached ∙ go (strip (parent_of parts) q) refl
  where
    go :
        (o : Option (List Bytes))
        → strip (parent_of parts) q ≡ o
        → strip_or (strip (parent_of parts) q) (look root q) (look_in es')
          ≡ strip_or (strip parts q) (look root q) seen
    go none e = rw (p.below q, e)
    go (some r) e =
        rw (p.below q, e)
          (h r
            ∙ ap (λ a. strip_or (last_step name r) a seen)
                (sym (look-strip root (parent_of parts) q r es p.reached e)))

-- What stands at the path itself.
pub look_parts :
    (root : Node) (parts : List Bytes) (es : Entries) (name : Bytes)
    → Parent root parts es name
    → look root parts ≡ look_in es (name ∷ [])
look_parts root parts es name p =
    look-strip root (parent_of parts) parts (name ∷ []) es p.reached p.itself
