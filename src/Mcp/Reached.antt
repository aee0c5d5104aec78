-- ===== src/Mcp/Reached.antt =====
-- Every tool call acts on the device that the call names, else on the active one, else on the only
-- one that can be reached.
use open_cuttles.Mcp.Resolved.{device_of, Quiet}
use open_cuttles.Base.{String, ◌≡◌, ◌⊎◌, some}
use open_cuttles.Mcp.{bind_run, Desk}
use open_cuttles.DeviceControl.{Bench}
use open_cuttles.Mcp.Acting.{Acts}
use open_cuttles.DeviceControl.Operations

-- Nothing was run or called, or the call was for this device and acted on it.
abbrev pub Reached : Bench → String → Desk → Desk → Type 0
Reached b explicit s t =
    Quiet s t ⊎ ((id : String) × (device_of explicit s ≡ some id) × Acts b id s.lab t.lab)
