-- ===== src/Ops/Found.antt =====
-- Where the lookups of internal/core/ops.go find a comment.
use octo_docs_html_fork.Prelude.{
  ℕ, String, ◌≡◌, Option, some, List, [], ◌∷◌, ◌==◌, arith, eq_iff, get_elem?, Bool-cases,
  Option-cases, inl, inr,
}
use octo_docs_html_fork.Types.{Comment, ReplySeed, log}
use octo_docs_html_fork.Ops.Hosts.{find_by_id, find_reply, find_host, find_seed}

-- The index that findByID returns is that of a comment with the id.
pub find_by_id-get_elem? :
    (cs : List Comment) (id : String) (i : ℕ)
    → find_by_id cs id ≡ some i
    → (c : Comment) × (get_elem? cs i ≡ some c) × (c.id ≡ id)
unfolding find_by_id
find_by_id-get_elem? [] id i h = absurd (ground arith)
find_by_id-get_elem? (x ∷ cs) id i h = elim (Bool-cases (x.id == id)) [
  | inl here ↦ (x, ground arith, (eq_iff x.id id).0 here)
  | inr later ↦ elim (Option-cases (find_by_id cs id)) [
    | inl missing ↦ absurd (ground arith)
    | inr (j, found) ↦
        let (c, at_j, named) = find_by_id-get_elem? cs id j found in (c, ground arith, named)
  ]
]

find_reply-get_elem? :
    (cs : List Comment) (id : String) (i : ℕ) (seed : ReplySeed)
    → find_reply cs id ≡ some (i, seed)
    → (c : Comment) × (get_elem? cs i ≡ some c)
unfolding find_reply
find_reply-get_elem? [] id i seed h = absurd (ground arith)
find_reply-get_elem? (x ∷ cs) id i seed h = elim (Option-cases (find_seed id (log x))) [
  | inr (s, here) ↦ (x, ground arith)
  | inl later ↦ elim (Option-cases (find_reply cs id)) [
    | inl missing ↦ absurd (ground arith)
    | inr (found, at_found) ↦
        let (c, at_j) = find_reply-get_elem? cs id found.0 found.1 at_found in (c, ground arith)
  ]
]

-- The index that FindHost returns is that of a comment of the list.
pub find_host-get_elem? :
    (cs : List Comment) (id : String) (i : ℕ) (seed : Option ReplySeed)
    → find_host cs id ≡ some (i, seed)
    → (c : Comment) × (get_elem? cs i ≡ some c)
unfolding find_host
find_host-get_elem? cs id i seed h = elim (Option-cases (find_by_id cs id)) [
  | inr (j, found) ↦ let (c, at_j, named) = find_by_id-get_elem? cs id j found in (c, ground arith)
  | inl missing ↦ elim (Option-cases (find_reply cs id)) [
    | inl absent ↦ absurd (ground arith)
    | inr (found, at_found) ↦
        let (c, at_j) = find_reply-get_elem? cs id found.0 found.1 at_found in (c, ground arith)
  ]
]
