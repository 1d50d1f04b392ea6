-- ===== src/Fat/Calls/Examples.antt =====
-- Opening a file that does not exist.
use vyper.Prelude.{bytes, ◌≡◌}
use vyper.Vfs.Types.{o_creat}
use vyper.Fat.Chain.Examples.{volume}
use vyper.Fat.Fs.Examples.{disk, same_name}
use vyper.Fat.Calls.{open_file}
use vyper.Fat.Calls.Open.{open_file-keeps}

open_file-keeps_example :
    (open_file volume same_name same_name 2 4 (bytes "/new.txt") o_creat disk).1 ≡ disk
open_file-keeps_example =
    open_file-keeps volume same_name same_name 2 4 (bytes "/new.txt") o_creat disk
