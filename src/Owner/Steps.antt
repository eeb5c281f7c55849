-- ===== src/Owner/Steps.antt =====
-- Every call keeps a request the owner of its addresses.
use libnhr.Base.{
  ℕ, ◌≡◌, refl, arith, Bool, true, false, List, [], ◌∷◌, ◌++◌, ◌==◌, Bool-cases, inl, inr,
}
use libnhr.Exec.{Exec, done}
use libnhr.Owner.{Memory, NodePointers, RequestPointers}
use libnhr.Owner.Calls.{
  create_request, copy_string, replace_string, set_url, text_node, data_node, generate_new_boundary,
  add_data,
}
use libnhr.Owner.Owns.{Owns, count-append, Owns-count, free-Owns, allocate-Owns}
use libnhr.Owner.Life.{node_owns, behind_url, request_owns}
use libnhr.Owner.Counts.{count-map_owns, count-request_owns}

module _ (rest : ℕ → ℕ) where
  -- A run that gives a request that owns its addresses.
  abbrev pub Keeps : Exec (RequestPointers × Memory) → Type 0
  Keeps run =
      (r : RequestPointers) × (m : Memory) × (run ≡ done (r, m)) × Owns rest (request_owns r) m

  pub create_request-Owns :
      (m : Memory)
      → Owns rest [] m
      → Owns rest (request_owns (create_request m).0) (create_request m).1
  unfolding create_request
  create_request-Owns m v =
      let a = allocate-Owns rest [] m v in
      let b = allocate-Owns rest _ _ a in
      let c = allocate-Owns rest _ _ b in
      Owns-count rest _ (request_owns (create_request m).0) _ (λ p h. ground arith) c

  pub replace_string-Owns :
      (old : ℕ) (text : Bool) (o : List ℕ) (m : Memory)
      → Owns rest (old ∷ o) m
      → (p : ℕ) × (m' : Memory) × (replace_string old text m ≡ done (p, m')) × Owns rest (p ∷ o) m'
  unfolding replace_string copy_string
  replace_string-Owns old true o m v =
      let (m1, e, w) = free-Owns rest old o m v in (_, _, rw e refl, allocate-Owns rest o m1 w)
  replace_string-Owns old false o m v =
      let (m1, e, w) = free-Owns rest old o m v in
      (0, m1, rw e refl, Owns-count rest o (0 ∷ o) m1 (λ p h. ground arith) w)

  -- two owned addresses exchanged
  Owns-swap :
      (a b : ℕ) (o : List ℕ) (m : Memory) → Owns rest (a ∷ b ∷ o) m → Owns rest (b ∷ a ∷ o) m
  Owns-swap a b o m v = Owns-count rest (a ∷ b ∷ o) (b ∷ a ∷ o) m (λ p h. omega arith) v

  pub set_url-Keeps :
      (scheme host path : Bool) (r : RequestPointers) (m : Memory)
      → Owns rest (request_owns r) m
      → Keeps (set_url scheme host path r m)
  unfolding set_url
  set_url-Keeps scheme host path r m v =
      let o = behind_url r in
      let (s, m1, e1, v1) = replace_string-Owns r.scheme scheme _ m v in
      let (h, m2, e2, v2) =
        replace_string-Owns r.host host _ m1 (Owns-swap s r.host (r.path ∷ o) m1 v1) in
      let (p, m3, e3, v3) =
        replace_string-Owns r.path path _ m2
          (Owns-count rest (h ∷ s ∷ r.path ∷ o) (r.path ∷ h ∷ s ∷ o) m2 (λ q k. omega arith) v2) in
      (
        record r { scheme = s; host = h; path = p },
        m3,
        simp (e1, e2, e3),
        Owns-count rest (p ∷ h ∷ s ∷ o) (s ∷ h ∷ p ∷ o) m3 (λ q k. omega arith) v3,
      )

  -- A node that was made is put at the end of the one map or of the other.
  pub header-Owns :
      (r : RequestPointers) (n : NodePointers) (m : Memory)
      → Owns rest (node_owns n ++ request_owns r) m
      → Owns rest (request_owns (record r { http_headers = r.http_headers ++ (n ∷ []) })) m
  header-Owns r n m v =
      let r' = record r { http_headers = r.http_headers ++ (n ∷ []) } in
      Owns-count rest (node_owns n ++ request_owns r) (request_owns r') m
        (λ p k. omega (
          arith,
          count-append p (node_owns n) (request_owns r),
          count-request_owns p r,
          count-request_owns p r',
          count-map_owns p r.http_headers n,
        ))
        v

  pub parameter-Owns :
      (r : RequestPointers) (n : NodePointers) (m : Memory)
      → Owns rest (node_owns n ++ request_owns r) m
      → Owns rest (request_owns (record r { parameters = r.parameters ++ (n ∷ []) })) m
  parameter-Owns r n m v =
      let r' = record r { parameters = r.parameters ++ (n ∷ []) } in
      Owns-count rest (node_owns n ++ request_owns r) (request_owns r') m
        (λ p k. omega (
          arith,
          count-append p (node_owns n) (request_owns r),
          count-request_owns p r,
          count-request_owns p r',
          count-map_owns p r.parameters n,
        ))
        v

  pub text_node-Owns :
      (o : List ℕ) (m : Memory)
      → Owns rest o m
      → Owns rest (node_owns (text_node m).0 ++ o) (text_node m).1
  unfolding text_node
  text_node-Owns o m v =
      let a = allocate-Owns rest o m v in
      let b = allocate-Owns rest _ _ a in
      let c = allocate-Owns rest _ _ b in
      Owns-count rest _ (node_owns (text_node m).0 ++ o) _ (λ p k. ground arith) c

  data_node-Owns :
      (o : List ℕ) (m : Memory)
      → Owns rest o m
      → Owns rest (node_owns (data_node m).0 ++ o) (data_node m).1
  unfolding data_node
  data_node-Owns o m v =
      let a = allocate-Owns rest o m v in
      let b = allocate-Owns rest _ _ a in
      let c = allocate-Owns rest _ _ b in
      let d = allocate-Owns rest _ _ c in
      Owns-count rest _ (node_owns (data_node m).0 ++ o) _ (λ p k. ground arith) d

  boundary-Keeps :
      (r : RequestPointers) (m : Memory)
      → Owns rest (request_owns r) m
      → Keeps (generate_new_boundary r m)
  unfolding generate_new_boundary
  boundary-Keeps r m v =
      let without = request_owns (record r { boundary = 0 }) in
      let (b, m1, e, w) = replace_string-Owns r.boundary true without m (
        Owns-count rest (request_owns r) (r.boundary ∷ without) m
          (λ p k.
            ground
              (arith, count-request_owns p r, count-request_owns p (record r { boundary = 0 })))
          v) in
      let r' = record r { boundary = b } in
      (
        r',
        m1,
        rw e refl,
        Owns-count rest (b ∷ without) (request_owns r') m1
            (λ p k.
              ground
                (arith, count-request_owns p r', count-request_owns p (record r { boundary = 0 })))
            w,
      )

  pub add_data-Keeps :
      (r : RequestPointers) (m : Memory) → Owns rest (request_owns r) m → Keeps (add_data r m)
  unfolding add_data
  add_data-Keeps r m v =
      let n = (data_node m).0 in
      let m1 = (data_node m).1 in
      let added = record r { parameters = r.parameters ++ (n ∷ []) } in
      let w = parameter-Owns r n m1 (data_node-Owns (request_owns r) m v) in
      elim (Bool-cases (r.boundary == 0)) [
        | inl e ↦ rw e (boundary-Keeps added m1 w)
        | inr e ↦ rw e (added, m1, refl, w)
      ]
