-- ===== src/ExecutorMeta/Samples.antt =====
-- The interfaces of a host.
use funtonic.Base.{none, some, List, [], ◌∷◌}
use funtonic.ExecutorMeta.Addresses.{Ipv4}
use funtonic.ExecutorMeta.Interfaces.{Interface, v4, v6}

abbrev netmask : Ipv4
netmask = record { a = 255; b = 255; c = 255; d = 0 }

abbrev pub interfaces : List Interface
interfaces =
    record {
      name = "lo";
      addr = v4 (record {
        ip = record { a = 127; b = 0; c = 0; d = 1 };
        netmask = record { a = 255; b = 0; c = 0; d = 0 };
        broadcast = none;
      });
    }
    ∷ record { name = "lo"; addr = v6 }
    ∷ record {
      name = "eth0";
      addr = v4 (record {
        ip = record { a = 192; b = 168; c = 1; d = 42 };
        netmask = netmask;
        broadcast = some (record { a = 192; b = 168; c = 1; d = 255 });
      });
    }
    ∷ record {
      name = "eth0";
      addr = v4 (record {
        ip = record { a = 10; b = 0; c = 0; d = 7 };
        netmask = netmask;
        broadcast = none;
      });
    }
    ∷ []
