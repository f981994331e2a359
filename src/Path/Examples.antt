-- ===== src/Path/Examples.antt =====
-- The path functions on concrete paths.
use quick_io.Common.{◌≡◌, refl, codes, some, none}
use quick_io.Path.{evs_clean_path, evs_make_path}
use quick_io.Path.Clean.{IsClean, evs_clean_path-IsClean}

messy_path : evs_clean_path (codes "/a//.b/./c d///") ≡ codes "/a/b/cd"
unfolding evs_clean_path
messy_path = refl

joined_path :
    evs_make_path none (some (codes "/b")) (some (codes "/c//////////////")) ≡ codes "/b/c"
unfolding evs_make_path
joined_path = refl

evs_clean_path-IsClean_example : IsClean (evs_clean_path (codes "/a//.b/./c d///"))
evs_clean_path-IsClean_example = evs_clean_path-IsClean (codes "/a//.b/./c d///")
