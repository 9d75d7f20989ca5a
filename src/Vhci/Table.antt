-- ===== src/Vhci/Table.antt =====
-- The table of ports in a status file, as the kernel's vhci_hcd prints it.
use virtual_usb.Base.{ℕ, ◌^◌, ◌≤◌, ◌<◌, List, [], ◌∷◌, ◌++◌, some, length}
use virtual_usb.Text.{codes, padded}
use virtual_usb.Text.Fields.{IsWord}
use virtual_usb.Vhci.{HubSpeed, hub_speed_high, hub_speed_super}
use virtual_usb.Vhci.Status.{Row}

-- A port, as the kernel lists it.
pub record Listed : Type 0 where
  pub hub : HubSpeed
  pub port : ℕ
  pub status : ℕ
  pub speed : ℕ
  pub devid : ℕ
  pub sockfd : ℕ
  pub busid : List ℕ

abbrev pub hub_text : HubSpeed → List ℕ
hub_text hub_speed_high = codes "hs"
hub_text hub_speed_super = codes "ss"

-- A hub, five fields and a word, before `rest`.
abbrev pub fields : HubSpeed → List ℕ → List ℕ → List ℕ → List ℕ → List ℕ → List ℕ → List ℕ → List ℕ
fields h port status speed devid sockfd busid rest =
    hub_text h
    ++ (32
        ∷ 32
        ∷ (port
            ++ (32
                ∷ (status
                    ++ (32
                        ∷ (speed
                            ++ (32
                                ∷ (devid ++ (32 ∷ (sockfd ++ (32 ∷ (busid ++ (10 ∷ rest)))))))))))))

-- `"%s  %04u %03u %03u %08x %06u %s\n"`, before `rest`.
abbrev pub row_text : Listed → List ℕ → List ℕ
row_text r rest =
    fields r.hub (padded 10 4 r.port) (padded 10 3 r.status) (padded 10 3 r.speed)
      (padded 16 8 r.devid) (padded 10 6 r.sockfd) r.busid rest

abbrev pub table : List Listed → List ℕ
table [] = []
table (r ∷ rows) = row_text r (table rows)

-- The numbers fit their columns, and the bus id is a word of at most 31 bytes.
pub record IsListed (r : Listed) : Type 0 where
  pub port_fits : r.port < 10000
  pub status_fits : r.status < 1000
  pub speed_fits : r.speed < 1000
  pub devid_fits : r.devid < 2 ^ 32
  pub sockfd_fits : r.sockfd < 1000000
  pub busid_some : 0 < length r.busid
  pub busid_fits : length r.busid ≤ 31
  pub busid_word : IsWord r.busid

abbrev pub row_of : Listed → Row
row_of r = record {
  hub = hub_text r.hub;
  port = r.port;
  status = r.status;
  speed = r.speed;
  devid = r.devid;
  lbusid = some r.busid;
}
