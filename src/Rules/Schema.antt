-- ===== src/Rules/Schema.antt =====
-- internal/rules/schema.go: the types of a detector rule document. A pointer is an `Option`; a slice
-- that the code compares with nil is a `Group`, which may be absent.
use hemera.Base.{ℕ, Bool, not, Bytes, bytes_eq, Option, List, if◌then◌else◌, []}
use hemera.Model.{SignalType}

pub record TextPattern : Type 0 where
  pub exact : Option Bytes
  pub contains : Option Bytes
  pub prefix : Option Bytes
  pub suffix : Option Bytes
  pub regex : Option Bytes
  pub case_insensitive : Bool

pub record Evidence (F : Type 0) : Type 0 where
  pub id : Bytes
  pub group : Bytes
  pub description : Bytes
  pub type : SignalType
  pub source : Option TextPattern
  pub key : Option TextPattern
  pub value : Option TextPattern
  pub url : Option TextPattern
  pub weight : F

mutual
  -- the fields Signal, All and Any
  pub data Condition (F : Type 0) : Type 0 where
    condition : Option (Evidence F) → Group F → Group F → Condition F

  pub data Group (F : Type 0) : Type 0 where
    absent : Group F
    present : Conditions F → Group F

  pub data Conditions (F : Type 0) : Type 0 where
    nil : Conditions F
    cons : Condition F → Conditions F → Conditions F

pub record Conflict (F : Type 0) : Type 0 where
  pub rule_id : Bytes
  pub penalty : F

pub record Rule (F : Type 0) : Type 0 where
  pub id : Bytes
  pub name : Bytes
  pub description : Bytes
  pub category : Bytes
  pub vendor : Bytes
  pub product : Bytes
  pub minimum_evidence : ℕ
  pub minimum_score : F
  pub match : Condition F
  pub negative_evidence : List (Evidence F)
  pub ambiguous_evidence : List (Evidence F)
  pub requires : List Bytes
  pub conflicts : List (Conflict F)

pub record RuleSet (F : Type 0) : Type 0 where
  pub schema_version : ℕ
  pub rules : List (Rule F)

-- `Group` if it is not empty, or else the evidence's own id
unfoldable pub evidence_group : {F : Type 0} → Evidence F → Bytes
evidence_group e = if not (bytes_eq e.group []) then e.group else e.id
