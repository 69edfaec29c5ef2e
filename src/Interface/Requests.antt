-- ===== src/Interface/Requests.antt =====
-- `RequestInfo` names the four requests, and keeps the last name for any other value.
use net_file_transfer.Base.{
  ℕ, ◌≤◌, ◌≡◌, List, [], ◌∷◌, ◌++◌, ok, ◌>>=◌, length, arith, none, some, Option, ap, sym,
  ok-injective,
}
use net_file_transfer.Memory.{text}
use net_file_transfer.Memory.Text.{memcpy_ok, length-strcpy}
use net_file_transfer.Interface.{
  RequestType, init, head, file_data, fin, enum_value, request_text, copy_literal, request_info,
}

-- What each request is called.
unfoldable pub name_of : RequestType → List ℕ
name_of init = b'I' ∷ b'N' ∷ b'I' ∷ b'T' ∷ []
name_of head = b'H' ∷ b'E' ∷ b'A' ∷ b'D' ∷ []
name_of file_data = b'D' ∷ b'A' ∷ b'T' ∷ b'A' ∷ []
name_of fin = b'F' ∷ b'I' ∷ b'N' ∷ []

-- Into an array of five bytes `RequestInfo` writes, with its NUL, the name of each of the four
-- requests.
pub request_info_lem :
    (str : List ℕ) (t : RequestType)
    → length str ≡ 5
    → (request_info str (enum_value t) >>= text) ≡ ok (name_of t)
unfolding request_info enum_value name_of text
request_info_lem str init h =
    rw (memcpy_ok str (name_of init ++ 0 ∷ []) 5 (omega arith) (omega arith))
request_info_lem str head h =
    rw (memcpy_ok str (name_of head ++ 0 ∷ []) 5 (omega arith) (omega arith))
request_info_lem str file_data h =
    rw (memcpy_ok str (name_of file_data ++ 0 ∷ []) 5 (omega arith) (omega arith))
request_info_lem str fin h =
    rw (memcpy_ok str (name_of fin ++ 0 ∷ []) 4 (omega arith) (omega arith))

-- Any other value leaves it as it was.
pub request_info_unknown : (str : List ℕ) (t : ℕ) → 4 ≤ t → request_info str t ≡ ok str
unfolding request_info
request_info_unknown str t h = ground arith

length-copy_literal :
    (str out : List ℕ) (literal : Option (List ℕ))
    → copy_literal str literal ≡ ok out
    → length out ≡ length str
length-copy_literal str out none e = ap length (sym (ok-injective e))
length-copy_literal str out (some literal) e = length-strcpy str literal out e

pub length-request_info :
    (str out : List ℕ) (t : ℕ) → request_info str t ≡ ok out → length out ≡ length str
length-request_info str out t e =
    length-copy_literal str out (request_text t) (unfold request_info in e)
