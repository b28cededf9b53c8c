-- ===== src/Client/Saving/System/Keys.antt =====
-- The keys of a whole run of frontend/usebin.ts, whatever the order of its steps.
use usebin.Base.{[], Str}
use usebin.Client.{Method, Request}
use usebin.Client.Platform.{Platform}
use usebin.Client.Urls.{file_endpoint}
use usebin.Client.Saving.System.{System}
use usebin.Client.World.{World}
use usebin.Client.World.Keeps.{Keeps}

module _ (p : Platform) where
  open p use {origin, respond}

  abbrev get_at : Str → Request
  get_at id = record { method = Method.get; url = file_endpoint origin id; body = [] }
