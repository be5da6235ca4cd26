-- ===== src/Models/Licensing.antt =====
-- pkg/models/licensing.go: the licence category that a vehicle needs.
use yukbor_backend.Common.{String}
use yukbor_backend.Models.Enums.{VehicleType}

abbrev pub license_category_truck : String
license_category_truck = "C"

abbrev pub license_category_truck_trailer : String
license_category_truck_trailer = "CE"

unfoldable pub required_license_category : VehicleType → String
required_license_category VehicleType.tractor_trailer = license_category_truck_trailer
required_license_category VehicleType.flatbed = license_category_truck
required_license_category VehicleType.refrigerated = license_category_truck
required_license_category VehicleType.tanker = license_category_truck
required_license_category VehicleType.dump_truck = license_category_truck
required_license_category VehicleType.box_truck = license_category_truck
required_license_category (VehicleType.other _) = ""
