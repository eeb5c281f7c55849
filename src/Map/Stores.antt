-- ===== src/Map/Stores.antt =====
-- What the nodes of a map stand for: named texts and named files.
use libnhr.Base.{◌≡◌, ◌≢◌, refl, ap, arith, List, [], ◌∷◌, ◌++◌, none, some, length, ne→==}
use libnhr.Exec.{done}
use libnhr.Clib.Memory.{Bytes}
use libnhr.Clib.Strings.{cstr, NoNul}
use libnhr.Map.{Node, zero_node, value_data, value_string, last_from, set_last, add}

-- A header field or a text parameter, or a file parameter.
pub data Param : Type 0 where
  text_param : Bytes → Bytes → Param
  file_param : Bytes → Bytes → Bytes → Param

pub record IsText (n : Node) (name value : Bytes) : Type 0 where
  pub key_is : n.key ≡ some (cstr name)
  pub value_is : n.value ≡ some (cstr value)
  pub reserved_is : n.reserved ≡ none
  pub value_size_is : n.value_size ≡ length value
  pub reserved_size_is : n.reserved_size ≡ 0
  pub value_type_is : n.value_type ≡ value_string
  pub name_text : NoNul name
  pub value_text : NoNul value

pub record IsFile (n : Node) (name file content : Bytes) : Type 0 where
  pub key_is : n.key ≡ some (cstr name)
  pub value_is : n.value ≡ some content
  pub reserved_is : n.reserved ≡ some (cstr file)
  pub value_size_is : n.value_size ≡ length content
  pub reserved_size_is : n.reserved_size ≡ length file
  pub value_type_is : n.value_type ≡ value_data
  pub name_text : NoNul name
  pub file_text : NoNul file

abbrev pub Stores : Node → Param → Type 0
Stores n (text_param name value) = IsText n name value
Stores n (file_param name file content) = IsFile n name file content

abbrev pub StoresAll : List Node → List Param → Type 0
StoresAll [] [] = Unit
StoresAll [] (p ∷ ps) = ⊥
StoresAll (n ∷ ns) [] = ⊥
StoresAll (n ∷ ns) (p ∷ ps) = Stores n p × StoresAll ns ps

pub StoresAll-append :
    (ns : List Node) (ps : List Param) (n : Node) (p : Param)
    → StoresAll ns ps
    → Stores n p
    → StoresAll (ns ++ (n ∷ [])) (ps ++ (p ∷ []))
StoresAll-append [] [] n p h s = (s, tt)
StoresAll-append [] (q ∷ ps) n p h s = elim h [ ]
StoresAll-append (m ∷ ns) [] n p h s = elim h [ ]
StoresAll-append (m ∷ ns) (q ∷ ps) n p h s = (h.0, StoresAll-append ns ps n p h.1 s)

Stores-type_ne : (n : Node) (p : Param) → Stores n p → n.value_type ≢ 0
Stores-type_ne n (text_param k v) s = omega arith
Stores-type_ne n (file_param k f c) s = omega arith

set_last-append :
    (f : Node → Node) (ns : List Node) (n : Node) → set_last f (ns ++ (n ∷ [])) ≡ ns ++ (f n ∷ [])
unfolding set_last
set_last-append f [] n = refl
set_last-append f (m ∷ []) n = refl
set_last-append f (m ∷ k ∷ ns) n = ap (◌∷◌ m) (set_last-append f (k ∷ ns) n)

last_from-type_ne :
    (n : Node) (p : Param) (ns : List Node) (ps : List Param)
    → Stores n p
    → StoresAll ns ps
    → (last_from n ns).value_type ≢ 0
unfolding last_from
last_from-type_ne n p [] ps s h = Stores-type_ne n p s
last_from-type_ne n p (m ∷ ns) [] s h = elim h [ ]
last_from-type_ne n p (m ∷ ns) (q ∷ ps) s h = last_from-type_ne m q ns ps h.0 h.1

-- Adding to a map puts one node at its end, and keeps all the others as they are.
pub add_lem :
    (f : Node → Node) (ns : List Node) (ps : List Param)
    → StoresAll ns ps
    → add f ns ≡ done (ns ++ (f zero_node ∷ []))
unfolding add
add_lem f [] ps h = refl
add_lem f (n ∷ ns) [] h = elim h [ ]
add_lem f (n ∷ ns) (p ∷ ps) h =
    rw (ne→== (last_from n ns).value_type 0 (last_from-type_ne n p ns ps h.0 h.1))
      (ap done (set_last-append f (n ∷ ns) zero_node))
