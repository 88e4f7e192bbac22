-- ===== src/Api/Metadata.antt =====
-- The object metadata that the code reads and writes.
use kube_task.Base.{ℕ, String, Bool, Option, List, ℤ}

abbrev pub Time : Type 0
Time = ℤ

abbrev pub Duration : Type 0
Duration = ℤ

-- An owner reference.
pub record Owner : Type 0 where
  pub api_version : String
  pub kind : String
  pub name : String
  pub uid : String
  pub controller : Bool

pub record Meta : Type 0 where
  pub name : String
  pub namespace : String
  pub uid : String
  pub generation : ℕ
  pub labels : List (String × String)
  pub annotations : List (String × String)
  pub owners : List Owner
  pub finalizers : List String
  pub creation_timestamp : Time
  pub deletion_timestamp : Option Time
