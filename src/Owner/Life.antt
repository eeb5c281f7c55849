-- ===== src/Owner/Life.antt =====
-- What a request owns, and that its deletion frees exactly that.
use libnhr.Base.{
  ℕ, refl, arith, Option, none, some, Bool, true, false, List, [], ◌∷◌, ◌++◌, if◌then◌else◌, leb,
}
use libnhr.Exec.{done}
use libnhr.Owner.{
  Memory, free, NodePointers, ResponsePointers, RequestPointers, delete_node, delete_map,
  delete_response, delete_request,
}
use libnhr.Owner.Owns.{Owns, Leaves, Owns-count, free-Owns, then-Leaves}

-- what a node owns, as the types say, in the order in which it is freed
abbrev pub node_owns : NodePointers → List ℕ
node_owns n =
    n.key
    ∷ (if leb n.value_type 2 then n.value else 0)
    ∷ (if leb n.reserved_type 2 then n.reserved else 0)
    ∷ n.self
    ∷ []

abbrev pub map_owns : List NodePointers → List ℕ
map_owns [] = []
map_owns (n ∷ ns) = node_owns n ++ map_owns ns

abbrev pub response_owns : Option ResponsePointers → List ℕ
response_owns none = []
response_owns (some r) = r.body ∷ r.self ∷ []

-- all but the three texts of the URL
abbrev pub behind_url : RequestPointers → List ℕ
behind_url r =
    map_owns r.http_headers
    ++ (map_owns r.parameters
        ++ (r.work_mutex
            ∷ r.command_mutex
            ∷ (response_owns r.response ++ (r.boundary ∷ r.self ∷ []))))

abbrev pub request_owns : RequestPointers → List ℕ
request_owns r = r.scheme ∷ r.host ∷ r.path ∷ behind_url r

module _ (rest : ℕ → ℕ) where
  free_if-Owns :
      (b : Bool) (p : ℕ) (o : List ℕ) (m : Memory)
      → Owns rest ((if b then p else 0) ∷ o) m
      → Leaves rest o (if b then free p m else done m)
  free_if-Owns true p o m v = free-Owns rest p o m v
  free_if-Owns false p o m v = (m, refl, Owns-count rest (0 ∷ o) o m (λ q h. ground arith) v)

  delete_node-Owns :
      (n : NodePointers) (o : List ℕ) (m : Memory)
      → Owns rest (node_owns n ++ o) m
      → Leaves rest o (delete_node n m)
  unfolding delete_node
  delete_node-Owns n o m v =
      then-Leaves rest (free n.key m) _ _ o (free-Owns rest n.key _ m v) λ m1 v1.
        then-Leaves rest _ _ _ o (free_if-Owns (leb n.value_type 2) n.value _ m1 v1) λ m2 v2.
          then-Leaves rest _ _ _ o (free_if-Owns (leb n.reserved_type 2) n.reserved _ m2 v2)
            λ m3 v3. free-Owns rest n.self o m3 v3

  pub delete_map-Owns :
      (ns : List NodePointers) (o : List ℕ) (m : Memory)
      → Owns rest (map_owns ns ++ o) m
      → Leaves rest o (delete_map ns m)
  unfolding delete_map
  delete_map-Owns [] o m v = (m, refl, v)
  delete_map-Owns (n ∷ ns) o m v =
      then-Leaves rest (delete_node n m) _ (map_owns ns ++ o) o
        (delete_node-Owns n (map_owns ns ++ o) m v) (delete_map-Owns ns o)

  delete_response-Owns :
      (r : Option ResponsePointers) (o : List ℕ) (m : Memory)
      → Owns rest (response_owns r ++ o) m
      → Leaves rest o (delete_response r m)
  unfolding delete_response
  delete_response-Owns none o m v = (m, refl, v)
  delete_response-Owns (some r) o m v =
      then-Leaves rest (free r.body m) _ (r.self ∷ o) o (free-Owns rest r.body _ m v)
        (free-Owns rest r.self o)

  -- From memory in which a request owns its addresses, `nhr_request_delete` frees each of them once
  -- and nothing else: it never frees what is not allocated, and what is left is the rest.
  pub delete_request-Owns :
      (r : RequestPointers) (m : Memory)
      → Owns rest (request_owns r) m
      → Leaves rest [] (delete_request r m)
  unfolding delete_request
  delete_request-Owns r m v =
      then-Leaves rest (free r.scheme m) _ _ [] (free-Owns rest r.scheme _ m v) λ m1 v1.
        then-Leaves rest _ _ _ [] (free-Owns rest r.host _ m1 v1) λ m2 v2.
          then-Leaves rest _ _ _ [] (free-Owns rest r.path _ m2 v2) λ m3 v3.
            then-Leaves rest _ _ _ [] (delete_map-Owns r.http_headers _ m3 v3) λ m4 v4.
              then-Leaves rest _ _ _ [] (delete_map-Owns r.parameters _ m4 v4) λ m5 v5.
                then-Leaves rest _ _ _ [] (free-Owns rest r.work_mutex _ m5 v5) λ m6 v6.
                  then-Leaves rest _ _ _ [] (free-Owns rest r.command_mutex _ m6 v6) λ m7 v7.
                    then-Leaves rest _ _ _ [] (delete_response-Owns r.response _ m7 v7) λ m8 v8.
                      then-Leaves rest _ _ _ [] (free-Owns rest r.boundary _ m8 v8)
                        λ m9 v9. free-Owns rest r.self [] m9 v9
