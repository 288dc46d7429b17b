-- ===== src/Sync/Wire.antt =====
-- The types of internal/server/sync.go, and what the code uses of encoding/json and crypto/sha256.
use quire_server.Base.{ℕ, Bool, ◌≡◌, Option, some, List, Text, length, ℤ}
use quire_server.Base.Floats.{Float}
use quire_server.Folders.{Json}

-- `value` is the raw text of the member; it is empty when the member is absent.
pub record Operation : Type 0 where
  pub id : Text
  pub book_id : Text
  pub kind : Text
  pub record_id : Text
  pub base_revision : ℤ
  pub deleted : Bool
  pub value : Text

pub record Candidate : Type 0 where
  pub operation_id : Text
  pub deleted : Bool
  pub value : Text
  pub created_at : ℕ

pub record Record : Type 0 where
  pub book_id : Text
  pub kind : Text
  pub record_id : Text
  pub revision : ℕ
  pub candidates : List Candidate

pub record Change : Type 0 where
  pub cursor : ℕ
  pub of : Record

pub record OperationResult : Type 0 where
  pub id : Text
  pub revision : ℕ
  pub conflict : Bool

pub record SyncRequest : Type 0 where
  pub cursor : ℤ
  pub operations : List Operation

pub record SyncResponse : Type 0 where
  pub results : List OperationResult
  pub changes : List Change
  pub cursor : ℕ
  pub has_more : Bool

-- The anonymous structs that `validateOperation` decodes a value into; a nil pointer is `none`.
pub record BookValue : Type 0 where
  pub in_library : Option Bool
  pub title : Text
  pub format : Text
  pub folder : Text
  pub folders : Option (List Text)
  pub author : Text
  pub series : Text
  pub volume : Option Float

pub record PositionValue : Type 0 where
  pub cfi : Option Text
  pub fraction : Option Float
  pub at_section : Text
  pub completed_chapter : Option ℤ
  pub current_chapter : Option ℤ

pub record AnnotationValue : Type 0 where
  pub kind : Text
  pub cfi : Text
  pub text : Text
  pub note : Text
  pub at_section : Text

-- A strict decoder gives the first value of a document, and whether the end follows; `none` is an
-- error of the first `Decode`. The columns of the tables hold encoded text.
pub record Codec : Type 0 where
  pub json : Json
  pub decode_book : Text → Option (BookValue × Bool)
  pub decode_position : Text → Option (PositionValue × Bool)
  pub decode_annotation : Text → Option (AnnotationValue × Bool)
  pub digest : Operation → Text
  pub candidates : List Candidate → Text
  pub candidates_of : Text → Option (List Candidate)
  pub encode : Record → Text
  pub decode : Text → Option Record
  pub result : OperationResult → Text
  pub result_of : Text → Option OperationResult

-- Encoded text decodes again. A candidate's raw value is rewritten on the way (an empty one becomes
-- `null`, spaces are dropped), so of candidates only their number is said to survive.
pub record IsLawful (c : Codec) : Type 0 where
  pub candidates_back :
      (cs : List Candidate)
      → (back : List Candidate) × (c.candidates_of (c.candidates cs) ≡ some back)
        × (length back ≡ length cs)
  pub decode_back : (r : Record) → (back : Record) × (c.decode (c.encode r) ≡ some back)
  pub result_back : (r : OperationResult) → c.result_of (c.result r) ≡ some r
