-- ===== src/Server/Samples.antt =====
-- What a system answers, and has had done to it, in the runs of the server's tests.
use selfserv.Base.{true, false, none, some, [], codes, equal, if◌then◌else◌}
use selfserv.Server.System.{System, World}

-- A system with one file, in which everything else succeeds.
abbrev pub disk : System
disk = record {
  exists = λ path. false;
  is_dir = λ path. false;
  is_regular = λ path. equal path (codes "w/a.txt");
  file_text = λ path. if equal path (codes "w/a.txt") then some (codes "hello") else none;
  entries = λ path. none;
  opens = λ path. true;
  unlinks = λ path. true;
  error_text = [];
  stray = 0;
  pipe_in = some (10, 11);
  pipe_out = some (12, 13);
  fork = some 99;
  time = 5000;
}

abbrev pub clean : World
clean = record {
  bin_count = 0;
  dat_count = 0;
  cgi_clients = [];
  made = [];
  written = [];
  removed = [];
  started = [];
  closed_fds = [];
}
