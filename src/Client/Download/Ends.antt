-- ===== src/Client/Download/Ends.antt =====
-- How `main` ends, by how its `try` block ends.
use usebin.Base.{◌≡◌, [], arith}
use usebin.Client.{ClientError}
use usebin.Client.Platform.{Platform}
use usebin.Client.Location.{push_state}
use usebin.Client.Download.{load, main}
use usebin.Client.World.{World, returned, threw, stuck}

pub main-returned :
    (p : Platform) (w w' : World) → load p w ≡ returned tt w' → main p w ≡ returned tt w'
unfolding main
main-returned p w w' e = ground arith

pub main-threw :
    (p : Platform) (w w' : World) (e : ClientError)
    → load p w ≡ threw e w'
    → main p w ≡ push_state [] w'
unfolding main
main-threw p w w' err e = ground arith

pub main-stuck : (p : Platform) (w : World) → load p w ≡ stuck → main p w ≡ stuck
unfolding main
main-stuck p w e = ground arith
