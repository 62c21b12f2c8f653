-- ===== src/Volume/Types.antt =====
-- `Record` of internal/volume/manager.go. Times are texts.
use kogia.Base.{Bool, Str}
use kogia.Base.Maps.{Dict}

pub record Record : Type 0 where
  pub created_at : Str
  pub labels : Dict Str
  pub options : Dict Str
  pub name : Str
  pub driver : Str
  pub mountpoint : Str
  pub anonymous : Bool
