-- ===== src/Files/Tests.antt =====
-- A table of two files.
use spring_os_mp.Prelude.{true, false, some, [], ◌∷◌, ◌≡◌, refl}
use spring_os_mp.Files.Defs.{File, FileType, Closing, fileclose}

abbrev open_pipe : File
open_pipe = record {
  type = FileType.fd_pipe;
  ref = 1;
  readable = false;
  writable = true;
  pipe = 7;
  ip = 0;
  off = 0;
  major = 0;
}

abbrev unused : File
unused = record open_pipe { type = FileType.fd_none; ref = 0 }

closed :
    fileclose (open_pipe ∷ unused ∷ []) 0 ≡ some (unused ∷ unused ∷ [], Closing.closes_pipe 7 true)
unfolding fileclose
closed = refl
